-- ===== src/Graph/Flow.antt =====
-- The edges of the graph of src/amlguard/graph/builder.py: `invoke` runs it from START, and
-- `resume` from the node that waits, until it ends or the next node waits. Between two waits every
-- node runs at most once, so no bound on the steps is needed.
use amlguard_eu_ai_agent.Prelude.{Action, pure, ◌>>=◌}
use amlguard_eu_ai_agent.Domain.{
  HumanReview, CaseStatus, failed, hard_blocked, waiting_for_information, rework_required,
}
use amlguard_eu_ai_agent.Graph.State.{InvestigationState, Submission, World, Services}
use amlguard_eu_ai_agent.Graph.Nodes.{
  load_and_retrieve, draft, collect_information, human_review, guarded,
}
use amlguard_eu_ai_agent.Graph.Controls.{validate}

-- The names of the conditional edges.
pub data Route : Type 0 where
  end_route information_route review_route continue_route redraft_route : Route

unfoldable pub route_after_validation : CaseStatus → Route
route_after_validation failed = end_route
route_after_validation hard_blocked = end_route
route_after_validation waiting_for_information = information_route
route_after_validation _ = review_route

unfoldable pub route_after_review : CaseStatus → Route
route_after_review rework_required = redraft_route
route_after_review _ = end_route

unfoldable pub route_after_stage : CaseStatus → Route
route_after_stage failed = end_route
route_after_stage _ = continue_route

-- Where a thread of the graph stands between two calls.
pub data Pending : Type 0 where
  ended at_information at_review : Pending

-- The checkpoint of a thread.
pub record Thread : Type 0 where
  pub state : InvestigationState
  pub pending : Pending

abbrev pub thread : Pending → InvestigationState → Thread
thread p state = record { state = state; pending = p }

module _ (s : Services) where
  unfoldable pub after_validation : InvestigationState → Route → Action World Thread
  after_validation state information_route = pure (thread at_information state)
  -- `human_review` returns at once on a hard-blocked state, and waits otherwise.
  after_validation state review_route = pure (thread at_review state)
  after_validation state _ = pure (thread ended state)

  unfoldable pub validate_stage : InvestigationState → Action World Thread
  unfolding after_validation route_after_validation
  validate_stage state = do
    state' ← guarded s "validate_controls" (validate s) state
    after_validation state' (route_after_validation state'.status)

  unfoldable pub after_draft : InvestigationState → Route → Action World Thread
  unfolding validate_stage
  after_draft state continue_route = validate_stage state
  after_draft state _ = pure (thread ended state)

  unfoldable pub draft_stage : InvestigationState → Action World Thread
  unfolding after_draft route_after_stage
  draft_stage state = do
    state' ← guarded s "draft_recommendation" (draft s) state
    after_draft state' (route_after_stage state'.status)

  -- The edge into `draft_recommendation`, or END.
  unfoldable pub go_on : InvestigationState → Route → Action World Thread
  unfolding draft_stage
  go_on state continue_route = draft_stage state
  go_on state redraft_route = draft_stage state
  go_on state _ = pure (thread ended state)

  unfoldable pub invoke : InvestigationState → Action World Thread
  unfolding go_on route_after_stage
  invoke state = do
    state' ← guarded s "load_and_retrieve" (load_and_retrieve s) state
    go_on state' (route_after_stage state'.status)

  unfoldable pub resume_information : InvestigationState → Submission → Action World Thread
  unfolding go_on route_after_stage
  resume_information state sub = do
    state' ← guarded s "collect_information" (λ x. collect_information s x sub) state
    go_on state' (route_after_stage state'.status)

  unfoldable pub resume_review : InvestigationState → HumanReview → Action World Thread
  unfolding go_on route_after_review
  resume_review state payload = do
    state' ← guarded s "human_review" (λ x. human_review s x payload) state
    go_on state' (route_after_review state'.status)
