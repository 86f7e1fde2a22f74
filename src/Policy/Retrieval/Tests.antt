-- ===== src/Policy/Retrieval/Tests.antt =====
-- The retrieval of the sample policy.
use amlguard_eu_ai_agent.Prelude.{◌≤◌, ◌↔◌, true, ◌≡◌, [], ok, refl, List, is_ok, ◌∷◌}
use amlguard_eu_ai_agent.Prelude.Dict.{lookup, put}
use amlguard_eu_ai_agent.Policy.Retrieval.{
  chunks_by_id, PolicyMatch, search_for_alert, new_index, PolicyIndex,
}
use amlguard_eu_ai_agent.Policy.Retrieval.Mapped.{
  Retrieved, search_for_alert-Retrieved, Fits, is_ok-search_for_alert,
}
use amlguard_eu_ai_agent.Samples.{sample_index, sample_chunk, sample_mapping}
use amlguard_eu_ai_agent.Prelude.Sets.{difference}

retrieved :
    (ms : List PolicyMatch) × (search_for_alert sample_index "cash deposits" "FR" 20 [] 8
        "STRUCTURING"
      ≡ ok ms)
unfolding search_for_alert lookup chunks_by_id put
retrieved = (_, refl)

search_for_alert-Retrieved_example :
    Retrieved sample_index "cash deposits" "FR" 20 [] 8 "STRUCTURING" retrieved.0
search_for_alert-Retrieved_example =
    search_for_alert-Retrieved sample_index "cash deposits" "FR" 20 [] 8 "STRUCTURING" retrieved.0
      retrieved.1

is_ok-search_for_alert_example :
    (is_ok (search_for_alert sample_index "cash deposits" "FR" 20 [] 8 "STRUCTURING") ≡ true) ↔ (
      (1 ≤ 8)
      × (8 ≤ 20)
      × Fits sample_index "cash deposits" "FR" 20 [] 8
          (lookup "STRUCTURING" sample_index.alert_mappings))
is_ok-search_for_alert_example =
    is_ok-search_for_alert sample_index "cash deposits" "FR" 20 [] 8 "STRUCTURING"

built : (index : PolicyIndex) × (new_index (sample_chunk ∷ []) (sample_mapping ∷ []) ≡ ok index)
unfolding new_index put difference
built = (_, refl)
