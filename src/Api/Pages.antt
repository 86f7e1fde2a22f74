-- ===== src/Api/Pages.antt =====
-- The routes of the user interface of src/amlguard/api/app.py, and the coroutine that runs an
-- investigation behind its progress page. `spawn` only queues the coroutine; `run_spawned` runs it.
-- While it runs, the stages of the job advance by `stage_hook`, which is left out there.
use Prim.Native.String.{count}
use mathlib.Core.List.{◌++◌}
use amlguard_eu_ai_agent.Prelude.{
  ℕ, String, Bool, true, false, Option, none, some, List, [], ◌∷◌, ◌&&◌, not, leb, ◌==◌, Exception,
  Result, ok, err, if◌then◌else◌,
}
use amlguard_eu_ai_agent.Prelude.Lists.{select}
use amlguard_eu_ai_agent.Domain.{
  Json, CaseData, completed, failed, same_status, waiting_for_human_review,
}
use amlguard_eu_ai_agent.Auth.{Actor, claim_review, read_case, reset, review, supply_information}
use amlguard_eu_ai_agent.Tools.Repository
use amlguard_eu_ai_agent.Graph.State.{Services}
use amlguard_eu_ai_agent.Graph.Engine
use amlguard_eu_ai_agent.Graph.Engine.{Runtime, InvestigationRun, prepare, run_prepared, to_run}
use amlguard_eu_ai_agent.Api.Progress
use amlguard_eu_ai_agent.Api.Progress.{
  InvestigationJob, JobStore, JobStatus, job_completed, is_running,
}
use amlguard_eu_ai_agent.Api.Http.{
  App, Spawned, Route, reply, refuse, change, state, ◌>>=◌, ◌>>◌, calling, attempt, uncaught,
  or_conflict, is_value_error, is_permission_error, on_repository, on_jobs,
}
use amlguard_eu_ai_agent.Api.Schemas.{valid_start}
use amlguard_eu_ai_agent.Api.Access.{allow, accept, case_for_action, Workspace, workspace}
use amlguard_eu_ai_agent.Api.Forms.{submit_form, review_form, record_claim}

-- What a page says besides.
pub data Notice : Type 0 where
  no_notice : Notice
  message : String → Notice
  not_waiting : Notice
  problem : Exception → Notice

pub data Page : Type 0 where
  workspace_page : Workspace → Notice → Page
  progress_page : InvestigationJob → Page
  error_page : Option Exception → Page
  to_case : (case_id : String) → Page
  to_home : Page

unfoldable pub shown : InvestigationRun → Actor → Notice → Route Page
shown run actor notice = do ws ← workspace run actor; reply (workspace_page ws notice)

-- The workspace of the case as it is now.
unfoldable pub shown_now : (case_id : String) → Actor → Notice → Route Page
unfolding shown
shown_now case_id actor notice = do run ← calling uncaught (to_run case_id); shown run actor notice

-- `except ValueError`: the case as it is now, with the error.
unfoldable pub shown_result :
    (case_id : String) → Actor → (InvestigationRun → Notice) → Result InvestigationRun → Route Page
unfolding shown shown_now
shown_result case_id actor notice (ok run) = shown run actor (notice run)
shown_result case_id actor notice (err e) =
    if is_value_error e then shown_now case_id actor (problem e) else refuse 500

abbrev pub analysts : List String
analysts = "analyst" ∷ "reviewer" ∷ []

abbrev pub readers : List String
readers = "analyst" ∷ "reviewer" ∷ "researcher" ∷ []

abbrev pub form_bounds : (low high : ℕ) → String → Bool
form_bounds low high s = leb low (count s) && leb (count s) high

abbrev pub found_job : Result InvestigationJob → Route InvestigationJob
found_job (ok job) = reply job
found_job (err e) = refuse 404

abbrev pub is_completed : JobStatus → Bool
is_completed job_completed = true
is_completed _ = false

abbrev pub spawn : Spawned → App → App
spawn job app = record app { spawned = app.spawned ++ job ∷ [] }

-- The end of `_run_ui_investigation`.
abbrev pub settled :
    (job_id : String) → Result InvestigationRun → JobStore → Result (Unit {0}) × JobStore
settled job_id (ok run) = Progress.complete job_id
settled job_id (err e) = Progress.fail job_id

module _ (s : Services) (x : Runtime) where
  unfoldable pub begin : (job_id condition : String) → Actor → CaseData → Route Page
  begin job_id condition actor case = do
    on_jobs (Progress.create job_id case.case_id case.run_id actor.actor_id actor.tenant_id)
    change (
        spawn (record {
          job_id = job_id;
          case = case;
          actor_id = actor.actor_id;
          context_condition = condition;
        }))
    reply (to_case case.case_id)

  -- A case that was there before runs again only if it failed.
  unfoldable pub begin_again : (job_id condition : String) → Actor → CaseData → Route Page
  unfolding begin
  begin_again job_id condition actor case = do
    run ← calling uncaught (to_run case.case_id)
    if same_status run.status failed
        then begin job_id condition actor case
        else reply (to_case case.case_id)

  unfoldable pub prepared :
      (job_id condition : String) → Actor → Result (CaseData × Bool) → Route Page
  unfolding begin begin_again
  prepared job_id condition actor (ok (case, true)) = begin job_id condition actor case
  prepared job_id condition actor (ok (case, false)) = begin_again job_id condition actor case
  prepared job_id condition actor (err e) =
      if is_permission_error e then reply (error_page (some e)) else refuse 500

  unfoldable pub ui_start_investigation :
      (alert_id condition : String) → Actor → (case_id run_id job_id : String) → Route Page
  unfolding prepared
  ui_start_investigation alert_id condition actor case_id run_id job_id = do
    allow analysts actor
    accept (leb 1 (count alert_id))
    if valid_start (record { alert_id = alert_id; context_condition = condition })
        then (do
          r ← attempt (prepare alert_id actor.actor_id actor.tenant_id case_id run_id)
          prepared job_id condition actor r)
        else reply (error_page none)

  -- `_run_ui_investigation`
  unfoldable pub run_spawned : Spawned → Route Unit
  run_spawned job = do
    r ← attempt (run_prepared s x job.case job.actor_id job.context_condition)
    on_jobs (settled job.job_id r)
    reply tt

  -- Both progress routes.
  unfoldable pub ui_investigation_progress : (job_id : String) → Actor → Route Page
  ui_investigation_progress job_id actor = do
    allow analysts actor
    r ← on_jobs (Progress.get job_id)
    job ← found_job r
    case_for_action s job.case_id actor read_case
    if is_completed job.status
        then shown_now job.case_id actor (message "Investigation analysis completed.")
        else reply (progress_page job)

  unfoldable pub ui_get_investigation : (case_id : String) → Actor → Route Page
  ui_get_investigation case_id actor = do
    allow readers actor
    case_for_action s case_id actor read_case
    shown_now case_id actor no_notice

  abbrev pub page_of : (case_id : String) → Actor → Option InvestigationJob → Route Page
  page_of case_id actor none = shown_now case_id actor no_notice
  page_of case_id actor (some job) =
      if is_running job.status then reply (progress_page job) else shown_now case_id actor no_notice

  unfoldable pub ui_get_investigation_page : (case_id : String) → Actor → Route Page
  ui_get_investigation_page case_id actor = do
    allow readers actor
    case_for_action s case_id actor read_case
    job ← state (λ app. Progress.for_case case_id app.jobs)
    page_of case_id actor job

  -- What a reset removes beside the case.
  abbrev pub forgotten : String → App → App
  forgotten case_id app = record app {
    jobs = Progress.discard_case case_id app.jobs;
    idempotency = select (λ c. not (c.response.case_id == case_id)) app.idempotency;
  }

  unfoldable pub ui_reset_investigation : (case_id : String) → Actor → Route Page
  ui_reset_investigation case_id actor = do
    allow analysts actor
    case_for_action s case_id actor reset
    calling (or_conflict is_value_error) (Engine.reset s x case_id actor.actor_id)
    change (forgotten case_id)
    reply to_home

  unfoldable pub ui_resume_investigation :
      (String → Result Json)
      → (case_id information_json submission_id : String) → Actor
      → Route Page
  ui_resume_investigation loads case_id information_json submission_id actor = do
    allow analysts actor
    accept (form_bounds 2 32768 information_json && form_bounds 1 200 submission_id)
    case_for_action s case_id actor supply_information
    r ← attempt (submit_form s x loads case_id actor information_json submission_id)
    shown_result case_id actor
        (λ run. message "Supplemental information added and the investigation was rerun.") r

  abbrev pub claimed : (case_id : String) → Actor → Result (Unit {0}) → Route Page
  claimed case_id actor (ok done) = do
    calling uncaught (record_claim s x case_id actor)
    shown_now case_id actor (message "Review assigned to you.")
  claimed case_id actor (err e) =
      if is_value_error e then shown_now case_id actor (problem e) else refuse 500

  unfoldable pub ui_claim_review : (case_id : String) → Actor → Route Page
  ui_claim_review case_id actor = do
    allow ("reviewer" ∷ []) actor
    case ← case_for_action s case_id actor claim_review
    if same_status case.status waiting_for_human_review
        then (do
          r ← attempt (on_repository (Repository.assign_reviewer case_id actor.actor_id))
          claimed case_id actor r)
        else shown_now case_id actor not_waiting

  abbrev pub review_notice : InvestigationRun → Notice
  review_notice run = message (
      if same_status run.status completed
      then "Investigation approved and completed."
      else "Rework requested; a new recommendation was generated.")

  unfoldable pub ui_human_review :
      (case_id : String) → (version : ℕ) → (action rationale : String) → Actor → Route Page
  ui_human_review case_id version action rationale actor = do
    allow ("reviewer" ∷ []) actor
    accept (leb 1 version && form_bounds 1 4000 rationale)
    case_for_action s case_id actor review
    r ← attempt (review_form s x case_id actor version action rationale)
    shown_result case_id actor review_notice r
