-- ===== src/Domain/Enums.antt =====
-- src/amlguard/domain/enums.py. The values are the words of the source; `OPEN` is `open_case`.
use amlguard_eu_ai_agent.Prelude.{String, Bool, true, false, ◌==◌}

pub data RecommendationKind : Type 0 where
  close_with_rationale request_more_information escalate_to_human_aml_analyst : RecommendationKind

pub data CaseStatus : Type 0 where
  open_case running waiting_for_information waiting_for_human_review rework_required : CaseStatus
  completed failed hard_blocked : CaseStatus

pub data ReviewAction : Type 0 where
  approve edit_and_approve reject_and_request_rework : ReviewAction

abbrev pub status_value : CaseStatus → String
status_value open_case = "OPEN"
status_value running = "RUNNING"
status_value waiting_for_information = "WAITING_FOR_INFORMATION"
status_value waiting_for_human_review = "WAITING_FOR_HUMAN_REVIEW"
status_value rework_required = "REWORK_REQUIRED"
status_value completed = "COMPLETED"
status_value failed = "FAILED"
status_value hard_blocked = "HARD_BLOCKED"

abbrev pub same_action : ReviewAction → ReviewAction → Bool
same_action approve approve = true
same_action edit_and_approve edit_and_approve = true
same_action reject_and_request_rework reject_and_request_rework = true
same_action _ _ = false

-- Two members of the enumeration are one when their values are.
abbrev pub same_status : CaseStatus → CaseStatus → Bool
same_status a b = status_value a == status_value b
