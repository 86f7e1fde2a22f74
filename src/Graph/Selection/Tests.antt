-- ===== src/Graph/Selection/Tests.antt =====
-- The selection of policies for an alert of structuring.
use amlguard_eu_ai_agent.Prelude.{ℕ, String, ◌≡◌, refl, some, List, [], ◌∷◌, Result, ok}
use amlguard_eu_ai_agent.Prelude.Dict.{Dict}
use amlguard_eu_ai_agent.Domain.{Json, str, EvidenceItem}
use amlguard_eu_ai_agent.Policy.Applicability.{Texts}
use amlguard_eu_ai_agent.Graph.State.{Selection}
use amlguard_eu_ai_agent.Graph.Selection.{select_policies}
use amlguard_eu_ai_agent.Graph.Selection.Selected.{Selected, select_policies-Selected}
use amlguard_eu_ai_agent.Samples.{sample_index, sample_evidence}

abbrev sample_texts : Texts
sample_texts = record { shown = λ v. ""; decimal = λ s. some 100 }

abbrev a_date : String → Result ℕ
a_date s = ok 20

abbrev evidence_of : (kind id : String) → Dict Json → EvidenceItem
evidence_of kind id content = record sample_evidence {
  evidence_id = id;
  evidence_type = kind;
  content = content;
}

abbrev gathered : List EvidenceItem
gathered =
    evidence_of "alert" "ALERT-A1"
      (("rule_id", str "STRUCTURING") ∷ ("created_at", str "2026-01-20T10:00:00") ∷ [])
    ∷ evidence_of "customer_profile" "CUSTOMER-K1"
        (("customer_type", str "BUSINESS") ∷ ("risk_level", str "HIGH") ∷ [])
    ∷ evidence_of "kyc_profile" "KYC-Y1"
        (("purpose", str "salary") ∷ ("status", str "CURRENT") ∷ [])
    ∷ []

selection :
    (sel : Selection) × (select_policies sample_texts a_date sample_index "FR" 8 gathered ≡ ok sel)
unfolding select_policies
    amlguard_eu_ai_agent.Policy.Applicability.Derive.derive_policy_applicability_facts
    amlguard_eu_ai_agent.Prelude.Dict.lookup amlguard_eu_ai_agent.Policy.Retrieval.search_for_alert
    amlguard_eu_ai_agent.Policy.Retrieval.chunks_by_id amlguard_eu_ai_agent.Prelude.Dict.put
selection = (_, refl)

select_policies-Selected_example :
    Selected sample_texts a_date sample_index "FR" 8 gathered selection.0
select_policies-Selected_example =
    select_policies-Selected sample_texts a_date sample_index "FR" 8 gathered selection.0
      selection.1
