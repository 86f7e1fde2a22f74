-- ===== src/Api/Http.antt =====
-- The state of the web application of src/amlguard/api/app.py, and its requests as actions on that
-- state: a request returns a value or is answered with the status of an error. An exception that no
-- handler catches is answered with 500; what was written before stays written.
use amlguard_eu_ai_agent.Prelude.{
  ℕ, String, Bool, true, false, Option, none, some, List, [], ◌∷◌, ◌&&◌, ◌==◌, Exception, Result,
  ok, err, Action, if◌then◌else◌, duplicate_review, review_already_assigned, invalid_payload,
  hard_blocked_case, stale_version, different_manifest, not_waiting_for_information, case_running,
  unknown_security_event, limit_out_of_range, limit_too_small, no_policy_mapping, duplicate_mapping,
  unknown_policy_ids, evidence_collision, alert_assigned_elsewhere, not_lease_owner,
  tool_not_authorized,
}
use amlguard_eu_ai_agent.Domain.{CaseData}
use amlguard_eu_ai_agent.Tools.Repository.{Repository}
use amlguard_eu_ai_agent.Graph.Nodes.{on_cases}
use amlguard_eu_ai_agent.Graph.Engine.{Engine, InvestigationRun, on_world}
use amlguard_eu_ai_agent.Api.Progress.{JobStore}

-- An entry of `app.state.idempotency`, under the actor and the key.
pub record Cached : Type 0 where
  pub actor_id : String
  pub key : String
  pub response : InvestigationRun

-- A coroutine that `spawn` was given and that did not run yet.
pub record Spawned : Type 0 where
  pub job_id : String
  pub case : CaseData
  pub actor_id : String
  pub context_condition : String

pub record App : Type 0 where
  pub engine : Engine
  pub jobs : JobStore
  pub spawned : List Spawned
  pub idempotency : List Cached

pub data Reply (A : Type 0) : Type 0 where
  replied : A → Reply A
  refused : (status : ℕ) → Reply A

abbrev pub Route : Type 0 → Type 0
Route A = App → Reply A × App

module _ {A : Type 0} where
  abbrev pub reply : A → Route A
  reply a app = (replied a, app)

  abbrev pub refuse : ℕ → Route A
  refuse status app = (refused status, app)

abbrev pub change : (App → App) → Route Unit
change f app = (replied tt, f app)

abbrev pub state : {A : Type 0} → (App → A) → Route A
state f app = (replied (f app), app)

module _ {A B : Type 0} where
  abbrev pub go_on : Reply A → (A → Route B) → Route B
  go_on (replied a) f app = f a app
  go_on (refused n) f app = (refused n, app)

  infixl 5 ◌>>=◌ ◌>>◌
  abbrev pub ◌>>=◌ : Route A → (A → Route B) → Route B
  ◌>>=◌ m f app = let (r, app') = m app in go_on r f app'

  abbrev pub ◌>>◌ : Route A → Route B → Route B
  m >> n = m >>= λ _. n

-- `isinstance(exc, ValueError)`: also pydantic's ValidationError.
unfoldable pub is_value_error : Exception → Bool
is_value_error duplicate_review = true
is_value_error review_already_assigned = true
is_value_error invalid_payload = true
is_value_error hard_blocked_case = true
is_value_error stale_version = true
is_value_error not_waiting_for_information = true
is_value_error case_running = true
is_value_error unknown_security_event = true
is_value_error limit_out_of_range = true
is_value_error limit_too_small = true
is_value_error no_policy_mapping = true
is_value_error duplicate_mapping = true
is_value_error unknown_policy_ids = true
is_value_error evidence_collision = true
is_value_error different_manifest = true
is_value_error _ = false

-- `isinstance(exc, PermissionError)`
unfoldable pub is_permission_error : Exception → Bool
is_permission_error alert_assigned_elsewhere = true
is_permission_error not_lease_owner = true
is_permission_error tool_not_authorized = true
is_permission_error _ = false

-- `except E as exc: raise HTTPException(409, …)`, for the exceptions of a class.
abbrev pub or_conflict : (Exception → Bool) → Exception → ℕ
or_conflict is_class e = if is_class e then 409 else 500

abbrev pub uncaught : Exception → ℕ
uncaught e = 500

module _ {A : Type 0} where
  abbrev pub answer : (Exception → ℕ) → Result A → Reply A
  answer status (ok a) = replied a
  answer status (err e) = refused (status e)

  -- A call of the engine, whose exceptions are answered with these statuses.
  abbrev pub calling : (Exception → ℕ) → Action Engine A → Route A
  calling status m app = let (r, e) = m app.engine in (answer status r, record app { engine = e })

  -- A call of the engine whose result, or exception, is looked at.
  abbrev pub attempt : Action Engine A → Route (Result A)
  attempt m app = let (r, e) = m app.engine in (replied r, record app { engine = e })

abbrev pub on_repository : {A : Type 0} → Action Repository A → Action Engine A
on_repository m = on_world (on_cases m)

abbrev pub on_jobs : {A : Type 0} → (JobStore → Result A × JobStore) → Route (Result A)
on_jobs m app = let (r, s) = m app.jobs in (replied r, record app { jobs = s })

-- `idempotency.get((actor_id, key))`
unfoldable pub cached : (actor_id key : String) → List Cached → Option InvestigationRun
cached a k [] = none
cached a k (c ∷ cs) =
    let rest = cached a k cs in if c.actor_id == a && c.key == k then some c.response else rest

-- `idempotency[(actor_id, key)] = response`
unfoldable pub remember : (actor_id key : String) → InvestigationRun → List Cached → List Cached
remember a k run [] = record { actor_id = a; key = k; response = run } ∷ []
remember a k run (c ∷ cs) =
    let rest = remember a k run cs in
    if c.actor_id == a && c.key == k then record c { response = run } ∷ cs else c ∷ rest
