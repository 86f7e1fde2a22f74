-- ===== src/Api/Progress.antt =====
-- src/amlguard/api/progress.py: `InvestigationJobStore`. A job is a value of the dictionary, which
-- every access goes through; the identifier that `uuid4()` draws is an argument of `create`. The
-- asyncio tasks of `spawn` and `shutdown` are left out.
pub mod Linked
pub mod Reached
mod Tests
use mathlib.Core.List.{reverse}
use amlguard_eu_ai_agent.Prelude.{
  ℕ, String, Bool, true, false, Option, none, some, List, [], ◌∷◌, map, ◌==◌, ◌&&◌, ◌||◌, not, leb,
  Result, ok, err, Action, pure, lift, modify, ◌>>=◌, ◌>>◌, unknown_key, if◌then◌else◌,
}
use amlguard_eu_ai_agent.Prelude.Dict.{Dict, lookup, put, remove, values}
use amlguard_eu_ai_agent.Prelude.Lists.{first, select, any, length, take}

pub data StepStatus : Type 0 where
  pending active step_completed step_failed : StepStatus

pub data JobStatus : Type 0 where
  job_running job_completed job_failed : JobStatus

pub record ProgressStep : Type 0 where
  pub key : String
  pub label : String
  pub status : StepStatus

pub record InvestigationJob : Type 0 where
  pub job_id : String
  pub case_id : String
  pub run_id : String
  pub actor_id : String
  pub tenant_id : String
  pub steps : List ProgressStep
  pub status : JobStatus
  pub error : Option String

pub record JobStore : Type 0 where
  pub jobs : Dict InvestigationJob
  pub by_run : Dict String

abbrev pub new_store : JobStore
new_store = record { jobs = []; by_run = [] }

-- `_STAGES` as the steps of a new job, the first of them completed.
abbrev pub step : StepStatus → String → String → ProgressStep
step status key label = record { key = key; label = label; status = status }

abbrev pub stages : List ProgressStep
stages =
    step step_completed "initialize" "Initializing investigation"
    ∷ step pending "load_and_retrieve" "Loading evidence and applicable policy"
    ∷ step pending "draft_recommendation" "Drafting the recommendation"
    ∷ step pending "validate_controls" "Validating safeguards and citations"
    ∷ step pending "collect_information" "Processing supplemental information"
    ∷ step pending "human_review" "Preparing the human-review handoff"
    ∷ []

abbrev pub is_running : JobStatus → Bool
is_running job_running = true
is_running _ = false

abbrev pub is_active : StepStatus → Bool
is_active active = true
is_active _ = false

-- `self._jobs.pop(job_id)` and `self._jobs_by_run.pop(job.run_id, None)`
abbrev pub dropped : String → InvestigationJob → JobStore → JobStore
dropped id job s = record { jobs = remove id s.jobs; by_run = remove job.run_id s.by_run }

unfoldable pub drop_all : List (String × InvestigationJob) → JobStore → JobStore
drop_all [] s = s
drop_all ((id, job) ∷ rest) s = drop_all rest (dropped id job s)

abbrev pub terminal : Dict InvestigationJob → List (String × InvestigationJob)
terminal [] = []
terminal ((id, job) ∷ d) =
    let rest = terminal d in if is_running job.status then rest else (id, job) ∷ rest

-- `_prune`
unfoldable pub prune : JobStore → JobStore
unfolding drop_all
prune s = if leb (length s.jobs) 500 then s else drop_all (take 100 (terminal s.jobs)) s

abbrev pub new_job : (job_id case_id run_id actor_id tenant_id : String) → InvestigationJob
new_job job_id case_id run_id actor_id tenant_id = record {
  job_id = job_id;
  case_id = case_id;
  run_id = run_id;
  actor_id = actor_id;
  tenant_id = tenant_id;
  steps = stages;
  status = job_running;
  error = none;
}

abbrev pub added : String → InvestigationJob → JobStore → JobStore
added id job s = record { jobs = put id job s.jobs; by_run = put job.run_id id s.by_run }

unfoldable pub create :
    (job_id case_id run_id actor_id tenant_id : String) → Action JobStore InvestigationJob
unfolding prune
create job_id case_id run_id actor_id tenant_id = do
  let job = new_job job_id case_id run_id actor_id tenant_id
  modify (added job_id job)
  modify prune
  pure job

abbrev pub known_job : Option InvestigationJob → Result InvestigationJob
known_job none = err unknown_key
known_job (some job) = ok job

unfoldable pub get : String → Action JobStore InvestigationJob
get job_id s = (known_job (lookup job_id s.jobs), s)

unfoldable pub for_case : String → JobStore → Option InvestigationJob
for_case case_id s = first (λ job. job.case_id == case_id) (reverse (values s.jobs))

-- The jobs of a case, under their identifiers.
unfoldable pub of_case : String → Dict InvestigationJob → List (String × InvestigationJob)
of_case case_id [] = []
of_case case_id ((id, job) ∷ d) =
    let rest = of_case case_id d in if job.case_id == case_id then (id, job) ∷ rest else rest

unfoldable pub discard_case : String → JobStore → JobStore
unfolding of_case drop_all
discard_case case_id s = drop_all (of_case case_id s.jobs) s

-- The status that an event of the graph gives to the step; any other event leaves it.
abbrev pub step_status : String → StepStatus → StepStatus
step_status event old =
    if event == "started"
    then active
    else if event == "completed" || event == "interrupted"
    then step_completed
    else if event == "failed"
    then step_failed
    else old

-- The first step with this key is changed.
unfoldable pub advance : String → String → List ProgressStep → List ProgressStep
advance stage event [] = []
advance stage event (x ∷ xs) =
    let rest = advance stage event xs in
    if x.key == stage then record x { status = step_status event x.status } ∷ xs else x ∷ rest

abbrev pub with_job : String → InvestigationJob → JobStore → JobStore
with_job id job s = record s { jobs = put id job s.jobs }

unfoldable pub stage_of_job : String → (stage event : String) → Action JobStore Unit
unfolding get advance
stage_of_job id stage event = do
  job ← get id
  modify (with_job id (record job { steps = advance stage event job.steps }))

abbrev pub stage_of : Option String → (stage event : String) → Action JobStore Unit
stage_of none stage event = pure tt
stage_of (some id) stage event = stage_of_job id stage event

unfoldable pub stage_hook : (run_id stage event : String) → Action JobStore Unit
unfolding stage_of_job
stage_hook run_id stage event s = stage_of (lookup run_id s.by_run) stage event s

-- Every active step gets this status.
abbrev pub close_steps : StepStatus → List ProgressStep → List ProgressStep
close_steps status steps =
    map (λ x. if is_active x.status then record x { status = status } else x) steps

unfoldable pub complete : String → Action JobStore Unit
unfolding get
complete job_id = do
  job ← get job_id
  modify (
      with_job job_id
        (record job { steps = close_steps step_completed job.steps; status = job_completed }))

abbrev pub failure_text : String
failure_text = "The investigation could not be completed. Check the case logs using its error ID."

unfoldable pub fail : String → Action JobStore Unit
unfolding get
fail job_id = do
  job ← get job_id
  modify (
      with_job job_id (record job {
        steps = close_steps step_failed job.steps;
        status = job_failed;
        error = some failure_text;
      }))
