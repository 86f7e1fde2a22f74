-- ===== src/Domain/Models.antt =====
-- src/amlguard/domain/models.py, and the case record of src/amlguard/tools/repository.py. A UUID
-- is its canonical text. A model's validators are the function `validate_…` beside it.
use Prim.Native.String.{count}
use amlguard_eu_ai_agent.Prelude.{
  ℕ, String, Bool, true, Option, List, ◌&&◌, not, Result, ok, err, invalid_payload, leb,
  if◌then◌else◌,
}
use amlguard_eu_ai_agent.Prelude.Dict.{Dict, is_some}
use amlguard_eu_ai_agent.Prelude.Lists.{any, all}
use amlguard_eu_ai_agent.Domain.Values.{Json}
use amlguard_eu_ai_agent.Domain.Enums.{
  RecommendationKind, CaseStatus, ReviewAction, edit_and_approve, same_action,
}

pub record EvidenceItem : Type 0 where
  pub evidence_id : String
  pub evidence_type : String
  pub source_record_id : String
  pub case_id : String
  pub customer_id : String
  pub content : Dict Json
  pub content_hash : String
  pub provenance : String

pub record MaterialFinding : Type 0 where
  pub claim : String
  pub evidence_ids : List String
  pub policy_ids : List String
  pub assessment : String
  pub claim_type : String

pub record Recommendation : Type 0 where
  pub recommendation : RecommendationKind
  pub summary : String
  pub material_findings : List MaterialFinding
  pub counter_indicators : List MaterialFinding
  pub missing_information : List String

pub data Outcome : Type 0 where
  pass warn fail not_applicable : Outcome

pub record ControlResult : Type 0 where
  pub control_id : String
  pub control_version : String
  pub outcome : Outcome
  pub evidence_ids : List String
  pub policy_ids : List String
  pub severity : String
  pub hard_block : Bool

pub record ToolExecution : Type 0 where
  pub case_id : String
  pub tool_name : String
  pub sanitized_arguments : Dict Json
  pub authorized : Bool
  pub evidence_ids : List String
  pub error_code : Option String

pub record HumanReview : Type 0 where
  pub case_id : String
  pub recommendation_version : ℕ
  pub action : ReviewAction
  pub reviewer_id : String
  pub rationale : String
  pub edited_recommendation : Option Recommendation

-- `Field` constraints and `edited_payload_matches_action`.
unfoldable pub validate_review : HumanReview → Result HumanReview
validate_review r =
    if leb 1 r.recommendation_version && (leb 1 (count r.rationale) && leb (count r.rationale) 4000)
    then (if same_action r.action edit_and_approve && not (is_some r.edited_recommendation)
        then err invalid_payload
        else if not (same_action r.action edit_and_approve) && is_some r.edited_recommendation
        then err invalid_payload
        else ok r)
    else err invalid_payload

-- `Field` constraints of a finding, and `material_findings_are_cited`.
unfoldable pub validate_finding : MaterialFinding → Bool
validate_finding f =
    leb 1 (count f.claim) && leb (count f.claim) 2000 && any (λ _. true) f.evidence_ids

unfoldable pub validate_recommendation : Recommendation → Result Recommendation
unfolding validate_finding
validate_recommendation r =
    if leb 1 (count r.summary)
      && leb (count r.summary) 4000
      && all validate_finding r.material_findings
      && all validate_finding r.counter_indicators
    then ok r
    else err invalid_payload

pub record CaseData : Type 0 where
  pub case_id : String
  pub run_id : String
  pub alert_id : String
  pub customer_id : String
  pub tenant_id : String
  pub assigned_investigator_id : String
  pub assigned_reviewer_id : Option String
  pub status : CaseStatus
  pub recommendation : Option Recommendation
  pub recommendation_version : ℕ
  pub reviews : List HumanReview
