-- ===== src/Graph/Waiting.antt =====
-- What holds of a state where the graph waits for a person, and where it ends.
use amlguard_eu_ai_agent.Prelude.{◌≡◌, List, [], some, ◌⊎◌}
use amlguard_eu_ai_agent.Domain.{
  ToolExecution, Recommendation, HumanReview, failed, hard_blocked, completed,
  waiting_for_information, waiting_for_human_review, reject_and_request_rework,
}
use amlguard_eu_ai_agent.Graph.State.{InvestigationState}
use amlguard_eu_ai_agent.Graph.Cleared.{Cleared}
use amlguard_eu_ai_agent.Graph.Flow.{Pending, ended, at_information, at_review}

-- The recommendation passed every control, with the tool executions of that time.
pub record Supported (st : InvestigationState) : Type 0 where
  pub executions : List ToolExecution
  pub recommendation : Recommendation
  pub drafted : st.recommendation ≡ some recommendation
  pub unblocked : st.hard_blocks ≡ []
  pub cleared : Cleared st executions recommendation

-- A person reviewed the recommendation, and did not reject it.
pub record Approved (st : InvestigationState) : Type 0 where
  pub review : HumanReview
  pub given : st.review ≡ some review
  pub accepted : ¬ (review.action ≡ reject_and_request_rework)
  pub supported : Supported st

-- The states with which the graph may wait or end.
abbrev pub Stands : Pending → InvestigationState → Type 0
Stands at_information st = (st.status ≡ waiting_for_information) × Supported st
Stands at_review st = (st.status ≡ waiting_for_human_review) × Supported st
Stands ended st =
    (st.status ≡ failed) ⊎ (st.status ≡ hard_blocked) ⊎ (st.status ≡ completed) × Approved st
