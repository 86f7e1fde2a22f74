-- ===== src/Api/Routes.antt =====
-- The JSON routes on investigations of src/amlguard/api/app.py. The identifiers that `uuid4()` draws
-- for a new case are arguments; metrics and logs are left out.
use amlguard_eu_ai_agent.Prelude.{String, Option, none, some, List, [], ◌∷◌, ◌&&◌, if◌then◌else◌}
use amlguard_eu_ai_agent.Domain.{EvidenceItem, CaseStatus, waiting_for_human_review, same_status}
use amlguard_eu_ai_agent.Auth.{
  Actor, claim_review, read_case, read_evidence, review, supply_information,
}
use amlguard_eu_ai_agent.Tools.Repository
use amlguard_eu_ai_agent.Graph.State.{Services}
use amlguard_eu_ai_agent.Graph.Engine
use amlguard_eu_ai_agent.Graph.Engine.{Runtime, InvestigationRun, start, to_run}
use amlguard_eu_ai_agent.Api.Http.{
  Route, reply, refuse, change, state, ◌>>=◌, ◌>>◌, calling, uncaught, or_conflict, is_value_error,
  is_permission_error, cached, remember, on_repository,
}
use amlguard_eu_ai_agent.Api.Schemas.{
  StartInvestigationRequest, ResumeInvestigationRequest, HumanReviewRequest, valid_start,
  valid_information, valid_decision, valid_key,
}
use amlguard_eu_ai_agent.Api.Access.{allow, accept, case_for_action}
use amlguard_eu_ai_agent.Api.Forms.{submission, review_body, record_claim}

abbrev pub ensure_waiting : CaseStatus → Route Unit
ensure_waiting status = if same_status status waiting_for_human_review then reply tt else refuse 409

-- The response goes into the cache and out.
unfoldable pub remembered : (key : String) → Actor → InvestigationRun → Route InvestigationRun
remembered key actor run = do
  change (λ app. record app { idempotency = remember actor.actor_id key run app.idempotency })
  reply run

module _ (s : Services) (x : Runtime) where
  unfoldable pub start_fresh :
      StartInvestigationRequest
      → (key : String) → Actor
      → (case_id run_id : String) → Route InvestigationRun
  unfolding remembered
  start_fresh body key actor case_id run_id =
      calling (or_conflict is_permission_error) (
        start s x body.alert_id actor.actor_id actor.tenant_id body.context_condition case_id
          run_id)
      >>= remembered key actor

  abbrev pub start_or_cached :
      Option InvestigationRun
      → StartInvestigationRequest
      → (key : String) → Actor
      → (case_id run_id : String) → Route InvestigationRun
  start_or_cached (some run) body key actor case_id run_id = reply run
  start_or_cached none body key actor case_id run_id = start_fresh body key actor case_id run_id

  unfoldable pub start_investigation :
      StartInvestigationRequest
      → (key : String) → Actor
      → (case_id run_id : String) → Route InvestigationRun
  unfolding start_fresh
  start_investigation body key actor case_id run_id = do
    allow ("analyst" ∷ "reviewer" ∷ []) actor
    accept (valid_start body && valid_key key)
    old ← state (λ app. cached actor.actor_id key app.idempotency)
    start_or_cached old body key actor case_id run_id

  unfoldable pub get_investigation : (case_id : String) → Actor → Route InvestigationRun
  get_investigation case_id actor = do
    allow ("analyst" ∷ "reviewer" ∷ "researcher" ∷ []) actor
    case_for_action s case_id actor read_case
    calling uncaught (to_run case_id)

  unfoldable pub resume_investigation :
      ResumeInvestigationRequest → (case_id key : String) → Actor → Route InvestigationRun
  resume_investigation body case_id key actor = do
    allow ("analyst" ∷ "reviewer" ∷ []) actor
    accept (valid_information body.information && valid_key key)
    case_for_action s case_id actor supply_information
    calling (or_conflict is_value_error)
        (Engine.supply_information s x case_id (submission actor body.information key))

  unfoldable pub get_evidence : (case_id : String) → Actor → Route (List EvidenceItem)
  get_evidence case_id actor = do
    allow ("analyst" ∷ "reviewer" ∷ "researcher" ∷ []) actor
    case_for_action s case_id actor read_evidence
    run ← calling uncaught (to_run case_id)
    reply run.evidence

  unfoldable pub claim : (case_id : String) → Actor → Route Unit
  claim case_id actor = do
    allow ("reviewer" ∷ []) actor
    case ← case_for_action s case_id actor claim_review
    ensure_waiting case.status
    calling (or_conflict is_value_error)
        (on_repository (Repository.assign_reviewer case_id actor.actor_id))
    calling uncaught (record_claim s x case_id actor)

  unfoldable pub human_review :
      HumanReviewRequest → (case_id : String) → Actor → Route InvestigationRun
  human_review body case_id actor = do
    allow ("reviewer" ∷ []) actor
    accept (valid_decision body)
    case_for_action s case_id actor review
    calling uncaught (review_body s x case_id actor body)
