-- ===== src/Graph/State.antt =====
-- src/amlguard/graph/state.py, the world that the nodes act on, and what the graph takes from
-- outside: the model provider, the trajectory hook, and identifiers drawn by `uuid5`.
use amlguard_eu_ai_agent.Prelude.{ℕ, String, Bool, Option, List, Exception, Result, Action}
use amlguard_eu_ai_agent.Prelude.Dict.{Dict}
use amlguard_eu_ai_agent.Domain.{
  Json, EvidenceItem, Recommendation, ControlResult, HumanReview, CaseStatus,
}
use amlguard_eu_ai_agent.Policy.Models.{PolicyChunk, PolicyApplicabilityFact}
use amlguard_eu_ai_agent.Policy.Retrieval.{PolicyMatch}
use amlguard_eu_ai_agent.Tools.Service.{External, Tools}

-- An entry of `errors`: the stage that failed and what was raised.
pub record Failure : Type 0 where
  pub stage : String
  pub error : Exception

pub record InvestigationState : Type 0 where
  pub run_id : String
  pub case_id : String
  pub alert_id : String
  pub customer_id : String
  pub actor_id : String
  pub context_condition : String
  pub evidence : List EvidenceItem
  pub policies : List PolicyChunk
  pub policy_applicability_facts : List PolicyApplicabilityFact
  pub policy_retrieval : List PolicyMatch
  pub policy_as_of_date : Option ℕ
  pub recommendation : Option Recommendation
  pub recommendation_version : ℕ
  pub control_results : List ControlResult
  pub security_events : List String
  pub hard_blocks : List String
  pub reviewer_feedback : Option String
  pub review : Option HumanReview
  pub status : CaseStatus
  pub errors : List Failure

-- What `select_policies` returns.
pub record Selection : Type 0 where
  pub as_of_date : ℕ
  pub facts : List PolicyApplicabilityFact
  pub matches : List PolicyMatch

-- The value with which a waiting `collect_information` is resumed.
pub record Submission : Type 0 where
  pub actor_id : String
  pub information : Dict Json
  pub submission_id : String

-- The tools with their repository, the events that went to the trajectory hook, and how often the
-- model provider was called.
pub record World : Type 0 where
  pub tools : Tools
  pub events : List String
  pub llm_calls : ℕ

pub record Services : Type 0 where
  pub external : External
  -- Call number n of `llm.recommend`: it returns a recommendation or raises.
  pub recommend :
      (call : ℕ)
      → List EvidenceItem
      → List PolicyChunk
      → List PolicyMatch
      → String
      → Option String
      → Result Recommendation
  -- Does the hook raise at this event, after these earlier ones?
  pub hook_raises : List String → String → Bool
  pub select_policies : List EvidenceItem → Result Selection
  -- `uuid5(case_id, f"{version}:{submission_id}")`
  pub information_id : String → ℕ → String → String
  -- The dictionary of `record_failure`, and the audit payloads of the nodes.
  pub failure_json : String → Exception → Dict Json

abbrev pub on_tools : {A : Type 0} → Action Tools A → Action World A
on_tools m w = let (r, t) = m w.tools in (r, record w { tools = t })
