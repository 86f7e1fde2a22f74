-- ===== src/Policy/Retrieval/Index.antt =====
-- What the construction of an index guarantees.
use amlguard_eu_ai_agent.Prelude.{
  String, true, false, ◌≡◌, refl, List, [], ◌∷◌, map, ◌&&◌, not, ok, arith, sym, ◌∙◌,
}
use amlguard_eu_ai_agent.Prelude.Sets.{contains, difference, contains-difference}
use amlguard_eu_ai_agent.Policy.Models.{PolicyChunk, AlertPolicyMapping}
use amlguard_eu_ai_agent.Policy.Retrieval.{PolicyIndex, new_index, rule_policy_ids, none_of}

none_of-contains : (xs : List String) (a : String) → none_of xs ≡ true → contains xs a ≡ false
none_of-contains [] a h = refl
none_of-contains (x ∷ xs) a h = ground arith

-- An index that is built holds the chunks that it was given, and every policy that a rule of a
-- mapping names is the policy of one of these chunks.
pub new_index-known :
    (chunks : List PolicyChunk) (mappings : List AlertPolicyMapping) (index : PolicyIndex)
    → new_index chunks mappings ≡ ok index
    → (index.chunks ≡ chunks)
      × ((a : String)
          → (not (contains (map (λ c. c.policy_id) chunks) a)
              && contains (rule_policy_ids mappings) a)
            ≡ false)
unfolding new_index
new_index-known chunks mappings index h =
    let ids = map (λ (c : PolicyChunk). c.policy_id) chunks in
    (
      ground (arith, h),
      λ a.
          sym (contains-difference (rule_policy_ids mappings) ids a)
          ∙ none_of-contains (difference (rule_policy_ids mappings) ids) a (ground (arith, h)),
    )
