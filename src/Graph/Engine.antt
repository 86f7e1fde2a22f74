-- ===== src/Graph/Engine.antt =====
-- src/amlguard/graph/service.py: `LangGraphInvestigationEngine`, over the world of the graph and the
-- threads that the checkpointer holds. A call runs to its end before the next one. `Runtime` holds
-- what LangGraph does where no node waits: a resumption of such a thread returns or raises and
-- changes nothing, `aupdate_state` finds a place for the thread, and makes one or raises where there
-- is none; a run that raises leaves a checkpoint, and `adelete_thread` may raise.
pub mod Blocks
pub mod Reset
mod Tests
use amlguard_eu_ai_agent.Prelude.{
  ℕ, String, Bool, Option, none, some, List, [], ◌∷◌, Result, ok, err, Action, pure, lift, gets,
  modify, guard, ◌>>=◌, ◌>>◌, ◌||◌, not, ◌=ℕ◌, hard_blocked_case, stale_version,
  not_waiting_for_information, case_running, unknown_security_event, unknown_key, invalid_payload,
  if◌then◌else◌,
}
use amlguard_eu_ai_agent.Prelude.Dict.{Dict, lookup, put, remove}
use amlguard_eu_ai_agent.Prelude.Sets.{contains, sorted_set}
use amlguard_eu_ai_agent.Domain.{
  Json, num, str, strings, CaseData, CaseStatus, open_case, running, hard_blocked,
  waiting_for_information, status_value, same_status, EvidenceItem, Recommendation, ControlResult,
  HumanReview,
}
use amlguard_eu_ai_agent.Policy.Models.{PolicyChunk, PolicyApplicabilityFact}
use amlguard_eu_ai_agent.Policy.Retrieval.{PolicyMatch}
use amlguard_eu_ai_agent.Governance.HardBlocks.{critical_events, evaluate}
use amlguard_eu_ai_agent.Tools.Repository
use amlguard_eu_ai_agent.Graph.State.{Failure, InvestigationState, Submission, World, Services}
use amlguard_eu_ai_agent.Graph.Nodes.{
  on_cases, required, guarded, notify, audit_case, marked, is_hard_blocked,
}
use amlguard_eu_ai_agent.Graph.Flow.{
  Pending, ended, at_information, at_review, Thread, thread, invoke, resume_information,
  resume_review, go_on, route_after_stage, route_after_review,
}

pub record Engine : Type 0 where
  pub world : World
  pub threads : Dict Thread

pub record Runtime : Type 0 where
  pub resume_idle : String → Result (Unit {0})
  pub delete_thread : String → Result (Unit {0})
  pub interrupted : Option Thread → Option Thread
  pub place : Pending → InvestigationState → Pending
  pub update_missing : String → (events blocks : List String) → Result Thread

abbrev pub on_world : {A : Type 0} → Action World A → Action Engine A
on_world m e = let (r, w) = m e.world in (r, record e { world = w })

-- The fields of `InvestigationRun`.
pub record InvestigationRun : Type 0 where
  pub run_id : String
  pub case_id : String
  pub alert_id : String
  pub customer_id : String
  pub status : CaseStatus
  pub recommendation : Option Recommendation
  pub evidence : List EvidenceItem
  pub policies : List PolicyChunk
  pub policy_applicability_facts : List PolicyApplicabilityFact
  pub policy_retrieval : List PolicyMatch
  pub policy_as_of_date : Option ℕ
  pub control_results : List ControlResult
  pub hard_blocks : List String
  pub errors : List Failure
  pub reviews : List HumanReview
  pub recommendation_version : ℕ

-- `status in {CaseStatus.OPEN, CaseStatus.RUNNING}`
abbrev pub is_busy : CaseStatus → Bool
is_busy status = same_status status open_case || same_status status running

-- The values of a thread that has no checkpoint.
abbrev pub no_values : CaseData → InvestigationState
no_values case = record {
  run_id = case.run_id;
  case_id = case.case_id;
  alert_id = case.alert_id;
  customer_id = case.customer_id;
  actor_id = case.assigned_investigator_id;
  context_condition = "B5";
  evidence = [];
  policies = [];
  policy_applicability_facts = [];
  policy_retrieval = [];
  policy_as_of_date = none;
  recommendation = none;
  recommendation_version = 0;
  control_results = [];
  security_events = [];
  hard_blocks = [];
  reviewer_feedback = none;
  review = none;
  status = open_case;
  errors = [];
}

abbrev pub values_of : CaseData → Option Thread → InvestigationState
values_of case none = no_values case
values_of case (some t) = t.state

abbrev pub run_of : CaseData → InvestigationState → InvestigationRun
run_of case values = record {
  run_id = case.run_id;
  case_id = case.case_id;
  alert_id = case.alert_id;
  customer_id = case.customer_id;
  status = case.status;
  recommendation = case.recommendation;
  evidence = values.evidence;
  policies = values.policies;
  policy_applicability_facts = values.policy_applicability_facts;
  policy_retrieval = values.policy_retrieval;
  policy_as_of_date = values.policy_as_of_date;
  control_results = values.control_results;
  hard_blocks = values.hard_blocks;
  errors = values.errors;
  reviews = case.reviews;
  recommendation_version = case.recommendation_version;
}

abbrev pub get_case : String → Action Engine CaseData
get_case case_id = on_world (on_cases (Repository.get_case case_id))

abbrev pub thread_of : String → Action Engine (Option Thread)
thread_of case_id = gets (λ e. lookup case_id e.threads)

abbrev pub kept : String → Option Thread → Dict Thread → Dict Thread
kept case_id none threads = threads
kept case_id (some t) threads = put case_id t threads

abbrev pub store : String → Thread → Action Engine (Unit {0})
store case_id t = modify (λ e. record e { threads = put case_id t e.threads })

-- `_to_run`, which `get` is too.
unfoldable pub to_run : String → Action Engine InvestigationRun
to_run case_id = do
  case ← get_case case_id
  t ← thread_of case_id
  pure (run_of case (values_of case t))

unfoldable pub prepare :
    (alert_id actor_id tenant_id case_id run_id : String) → Action Engine (CaseData × Bool)
prepare alert_id actor_id tenant_id case_id run_id =
    on_world (on_cases (Repository.create_case alert_id tenant_id actor_id case_id run_id))

-- The dictionary that `run_prepared` sends in, over the values of an earlier run of the thread.
abbrev pub input_state : CaseData → String → String → InvestigationState → InvestigationState
input_state case actor_id condition old = record old {
  run_id = case.run_id;
  case_id = case.case_id;
  alert_id = case.alert_id;
  customer_id = case.customer_id;
  actor_id = actor_id;
  context_condition = condition;
  evidence = [];
  policies = [];
  control_results = [];
  security_events = [];
  hard_blocks = [];
  errors = [];
  status = open_case;
}

-- The value that a waiting node is resumed with.
pub data Payload : Type 0 where
  information_payload : Submission → Payload
  review_payload : HumanReview → Payload

module _ (s : Services) (x : Runtime) where
  abbrev pub left : Option Thread → Result Thread → Option Thread
  left old (ok t) = some t
  left old (err e) = x.interrupted old

  abbrev pub done : Result Thread → Result (Unit {0})
  done (ok t) = ok tt
  done (err e) = err e

  -- A run of the graph under the thread of a case.
  unfoldable pub run_thread :
      String → Option Thread → Action World Thread → Action Engine (Unit {0})
  run_thread case_id old m e =
      let (r, w) = m e.world in
      (done r, record e { world = w; threads = kept case_id (left old r) e.threads })

  unfoldable pub run_prepared :
      CaseData → (actor_id condition : String) → Action Engine InvestigationRun
  unfolding run_thread to_run
  run_prepared case actor_id condition = do
    old ← thread_of case.case_id
    run_thread case.case_id old
        (invoke s (input_state case actor_id condition (values_of case old)))
    to_run case.case_id

  unfoldable pub start :
      (alert_id actor_id tenant_id condition case_id run_id : String)
      → Action Engine InvestigationRun
  unfolding prepare run_prepared to_run run_thread
  start alert_id actor_id tenant_id condition case_id run_id = do
    (case, created) ← prepare alert_id actor_id tenant_id case_id run_id
    if created then run_prepared case actor_id condition else to_run case.case_id

  -- `collect_information`, resumed with a review: the key `actor_id` is missing.
  unfoldable pub misdirected_review : InvestigationState → Action World Thread
  misdirected_review state = do
    state' ←
        guarded s "collect_information"
          (λ st. lift (required st.recommendation) >> lift (err unknown_key)) state
    go_on s state' (route_after_stage state'.status)

  -- `human_review`, resumed with information: it is no valid review.
  unfoldable pub misdirected_information : InvestigationState → Action World Thread
  misdirected_information state = do
    state' ←
        guarded s "human_review"
          (λ st. if is_hard_blocked st.status then pure st else lift (err invalid_payload)) state
    go_on s state' (route_after_review state'.status)

  unfoldable pub resume_waiting : Pending → InvestigationState → Payload → Action World Thread
  unfolding misdirected_review misdirected_information
  resume_waiting at_information st (information_payload sub) = resume_information s st sub
  resume_waiting at_information st (review_payload r) = misdirected_review st
  resume_waiting at_review st (review_payload r) = resume_review s st r
  resume_waiting at_review st (information_payload sub) = misdirected_information st
  resume_waiting ended st p = lift (x.resume_idle st.case_id) >> pure (thread ended st)

  -- `graph.ainvoke(Command(resume=payload), config)`
  unfoldable pub resume_thread : String → Option Thread → Payload → Action Engine (Unit {0})
  unfolding resume_waiting run_thread
  resume_thread case_id none p = lift (x.resume_idle case_id)
  resume_thread case_id (some t) p =
      run_thread case_id (some t) (resume_waiting t.pending t.state p)

  unfoldable pub review : HumanReview → Action Engine InvestigationRun
  unfolding resume_thread to_run
  review r = do
    case ← get_case r.case_id
    guard (not (is_hard_blocked case.status)) hard_blocked_case
    guard (r.recommendation_version =ℕ case.recommendation_version) stale_version
    t ← thread_of case.case_id
    resume_thread case.case_id t (review_payload r)
    to_run case.case_id

  unfoldable pub supply_information : String → Submission → Action Engine InvestigationRun
  unfolding resume_thread to_run
  supply_information case_id sub = do
    case ← get_case case_id
    guard (same_status case.status waiting_for_information) not_waiting_for_information
    t ← thread_of case.case_id
    resume_thread case.case_id t (information_payload sub)
    to_run case.case_id

  -- `adelete_thread`, whose exception is suppressed.
  abbrev pub dropped : Result (Unit {0}) → String → Dict Thread → Dict Thread
  dropped (ok done) case_id threads = remove case_id threads
  dropped (err e) case_id threads = threads

  abbrev pub reset_payload : CaseData → Dict Json
  reset_payload case =
      ("alert_id", str case.alert_id)
      ∷ ("previous_status", str (status_value case.status))
      ∷ ("recommendation_version", num case.recommendation_version)
      ∷ []

  unfoldable pub reset : (case_id actor_id : String) → Action Engine CaseData
  reset case_id actor_id = do
    case ← get_case case_id
    guard (not (is_busy case.status)) case_running
    on_world (audit_case s "investigation_reset" actor_id case_id (reset_payload case))
    on_world (on_cases (Repository.delete_case case_id))
    modify (λ e. record e { threads = dropped (x.delete_thread case_id) case_id e.threads })
    pure case

  abbrev pub blocked_thread : List String → List String → Thread → Thread
  blocked_thread events blocks t =
      let st = record t.state {
        security_events = events;
        hard_blocks = blocks;
        status = hard_blocked;
      } in
      thread (x.place t.pending st) st

  -- `graph.aupdate_state(config, …)`
  unfoldable pub update_thread :
      String → Option Thread → List String → List String → Action Engine (Unit {0})
  update_thread case_id none events blocks =
      lift (x.update_missing case_id events blocks) >>= store case_id
  update_thread case_id (some t) events blocks = store case_id (blocked_thread events blocks t)

  abbrev pub event_payload : String → List String → Dict Json
  event_payload event blocks = ("security_event", str event) ∷ ("hard_blocks", strings blocks) ∷ []

  unfoldable pub record_security_event :
      (case_id event_type : String) → Action Engine InvestigationRun
  unfolding update_thread to_run
  record_security_event case_id event_type = do
    guard (contains critical_events event_type) unknown_security_event
    case ← get_case case_id
    t ← thread_of case_id
    let values = values_of case t
    let events = sorted_set (event_type ∷ values.security_events)
    let blocks = (evaluate values.control_results events).hard_blocks
    update_thread case_id t events blocks
    on_world (marked s case_id hard_blocked)
    on_world (
        audit_case s "investigation_hard_blocked" values.actor_id case_id
          (event_payload event_type blocks))
    on_world (notify s "investigation_hard_blocked")
    to_run case_id
