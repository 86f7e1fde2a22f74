-- ===== src/Policy/Models.antt =====
-- src/amlguard/policy/models.py. A date is its proleptic ordinal. What no modelled operation reads
-- (titles, hashes, reviewer notes) is left out.
use amlguard_eu_ai_agent.Prelude.{
  ℕ, String, Bool, false, Option, none, some, ◌==◌, List, ◌++◌, ◌&&◌, ◌||◌, not, map, false, some,
  ◌==◌,
}
use amlguard_eu_ai_agent.Prelude.Dict.{is_some}
use amlguard_eu_ai_agent.Prelude.Sets.{all_distinct}

pub record PolicyChunk : Type 0 where
  pub policy_id : String
  pub source_id : String
  pub provision : String
  pub text : String
  pub topics : List String
  pub jurisdiction : String
  pub effective_from : Option ℕ
  pub effective_to : Option ℕ
  pub approved : Bool

pub data PolicyStage : Type 0 where
  initial_analysis information_collection enhanced_examination : PolicyStage
  reporting_assessment confidentiality recordkeeping : PolicyStage

pub data RetrievalReason : Type 0 where
  alert_mapping conditional_mapping contextual_keyword : RetrievalReason

pub record MappedPolicyRule : Type 0 where
  pub policy_id : String
  pub stage : PolicyStage
  pub rationale : String
  pub when_all : List String
  pub when_any : List String

-- `conditions_must_be_unique`: does the validator return?
unfoldable pub conditions_are_unique : MappedPolicyRule → Bool
conditions_are_unique r = all_distinct (r.when_all ++ r.when_any)

pub record AlertPolicyMapping : Type 0 where
  pub alert_rule_id : String
  pub always_policy_rules : List MappedPolicyRule
  pub conditional_policy_rules : List MappedPolicyRule
  pub aml_expert_reviewed : Bool
  pub reviewer_id : Option String
  pub reviewed_at : Option ℕ

-- `not self.reviewer_id`, for a text that may be None or empty.
abbrev is_given : Option String → Bool
is_given none = false
is_given (some s) = not (s == "")

abbrev pub all_rules : AlertPolicyMapping → List MappedPolicyRule
all_rules m = m.always_policy_rules ++ m.conditional_policy_rules

-- `mapping_governance_is_valid`: does the validator return?
unfoldable pub governance_is_valid : AlertPolicyMapping → Bool
governance_is_valid m =
    all_distinct (map (λ r. r.policy_id) (all_rules m))
    && not (m.aml_expert_reviewed && (not (is_given m.reviewer_id) || not (is_some m.reviewed_at)))
    && not (not m.aml_expert_reviewed && (is_given m.reviewer_id || is_some m.reviewed_at))

pub record PolicyApplicabilityFact : Type 0 where
  pub fact_id : String
  pub explanation : String
  pub evidence_ids : List String
