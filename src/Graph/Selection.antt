-- ===== src/Graph/Selection.antt =====
-- `select_policies` of src/amlguard/graph/builder.py, from the evidence to the policies. `iso_date` is
-- `date.fromisoformat`, which raises at a text that is no date.
pub mod Selected
mod Tests
use Prim.Native.String.{◌++◌ as str_append}
use Prim.Native.Char.{code}
use amlguard_eu_ai_agent.Prelude.{
  ℕ, zero, suc, String, Option, none, some, List, [], ◌∷◌, ◌++◌, map, Result, ok, err, ◌>>=ᵣ◌,
  unknown_key, ◌=ℕ◌, if◌then◌else◌,
}
use amlguard_eu_ai_agent.Prelude.Dict.{Dict, lookup, keys}
use amlguard_eu_ai_agent.Prelude.Lists.{select, take_last}
use amlguard_eu_ai_agent.Domain.{Json, obj, Fields, no_fields, EvidenceItem}
use amlguard_eu_ai_agent.Policy.Models.{PolicyApplicabilityFact}
use amlguard_eu_ai_agent.Policy.Retrieval.{PolicyIndex, PolicyMatch, search_for_alert}
use amlguard_eu_ai_agent.Policy.Applicability.{
  Texts, next_of, of_type, content_of, information_fields,
}
use amlguard_eu_ai_agent.Policy.Applicability.Derive.{
  text_of, text_field, derive_policy_applicability_facts,
}
use amlguard_eu_ai_agent.Graph.State.{Selection}

-- `s.replace("_", " ")`
unfoldable pub spaced : String → String
spaced String.[] = String.[]
spaced (String.◌∷◌ c s) =
    let rest = spaced s in if code c =ℕ 95 then str_append " " rest else String.◌∷◌ c rest

-- `s[:n]`
unfoldable pub prefix : ℕ → String → String
prefix zero s = String.[]
prefix (suc n) String.[] = String.[]
prefix (suc n) (String.◌∷◌ c s) = String.◌∷◌ c (prefix n s)

-- `" ".join(texts)`
unfoldable pub joined : List String → String
joined [] = ""
joined (s ∷ []) = s
joined (s ∷ u ∷ us) = str_append s (str_append " " (joined (u ∷ us)))

unfoldable pub supplemental_field_names : List EvidenceItem → List String
unfolding spaced
supplemental_field_names [] = []
supplemental_field_names (e ∷ es) =
    map spaced (keys (information_fields (content_of "information" (obj no_fields) e)))
    ++ supplemental_field_names es

abbrev pub dated : Option Json → Result Json
dated none = err unknown_key
dated (some v) = ok v

module _ (t : Texts) (iso_date : String → Result ℕ) (index : PolicyIndex) (jurisdiction : String)
    (limit : ℕ) where
  unfoldable pub policy_query :
      (alert customer kyc : EvidenceItem)
      → List PolicyApplicabilityFact
      → List EvidenceItem
      → String
  unfolding joined spaced supplemental_field_names
  policy_query alert customer kyc facts evidence = joined (
      "AML investigation suspicious report reporting threshold analysis regulation"
      ∷ "déclaration soupçon seuil client bénéficiaire effectif transaction vigilance"
      ∷ spaced (text_field t "rule_id" alert)
      ∷ text_field t "customer_type" customer
      ∷ text_field t "risk_level" customer
      ∷ text_field t "purpose" kyc
      ∷ (map (λ f. spaced f.fact_id) facts
          ++ (supplemental_field_names (select (of_type "supplemental_information") evidence)
              ++ map (text_field t "description")
                  (take_last 50 (select (of_type "transaction") evidence)))))

  unfoldable pub select_policies : List EvidenceItem → Result Selection
  unfolding next_of policy_query prefix
  select_policies evidence = next_of "alert" evidence >>=ᵣ λ alert.
      next_of "customer_profile" evidence >>=ᵣ λ customer.
      next_of "kyc_profile" evidence >>=ᵣ λ kyc.
      derive_policy_applicability_facts t evidence >>=ᵣ λ facts.
      dated (lookup "created_at" alert.content) >>=ᵣ λ created.
      iso_date (prefix 10 (text_of t created)) >>=ᵣ λ as_of_date.
      search_for_alert index (policy_query alert customer kyc facts evidence) jurisdiction
        as_of_date facts limit (text_field t "rule_id" alert)
      >>=ᵣ λ matches. ok (record { as_of_date = as_of_date; facts = facts; matches = matches })
