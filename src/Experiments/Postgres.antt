-- ===== src/Experiments/Postgres.antt =====
-- src/amlguard/experiments/queue.py: `PostgresExperimentQueue`, over the rows of its three tables. A
-- call is a transaction that starts when the one before has ended; an exception rolls it back. The
-- instant is an argument. The amounts that the calls hand in have six decimals. A rounded account may
-- fall short of zero only by less than half a unit, which is rounded to zero, since it covers what the
-- rows have reserved (Accounted): the subtraction of naturals, which stops at zero, is the one of the
-- source.
pub mod Accounted
pub mod Spending
pub mod Schedule
mod Tests
use Prim.Native.Nat.{◌/◌}
use amlguard_eu_ai_agent.Prelude.{
  ◌*◌, ℕ, zero, suc, String, Bool, true, false, Option, none, some, List, [], ◌∷◌, ◌+◌, ◌-◌, ◌&&◌,
  ◌||◌, not, ◌==◌, ◌=ℕ◌, leb, ltb, Result, ok, err, Action, pure, raise, lift, gets, modify, guard,
  ◌>>=◌, ◌>>◌, unknown_key, not_lease_owner, cost_ceiling_exceeded, experiment_stopped,
  if◌then◌else◌,
}
use amlguard_eu_ai_agent.Prelude.Dict.{Dict, lookup, put, values, is_none}
use amlguard_eu_ai_agent.Prelude.Sets.{contains, str_lt}
use amlguard_eu_ai_agent.Domain.{Json}
use amlguard_eu_ai_agent.Experiments.Models.{
  JobStatus, running, retry_wait, succeeded, failed, ExperimentManifest, ExperimentJob,
}
use amlguard_eu_ai_agent.Experiments.Queue.{
  is_waiting, is_held, is_before, is_owner, power_of_two, claimed,
}

-- A row of `ExperimentRecord`, its costs in ten thousandths of a euro: Numeric(14, 4).
pub record ManifestRow : Type 0 where
  pub manifest : ExperimentManifest
  pub stop_requested : Bool
  pub status : String
  pub cost_ceiling : ℕ
  pub cost_spent : ℕ
  pub cost_reserved : ℕ

-- A row of `ExperimentJobRecord`, its costs in millionths of a euro: Numeric(14, 6).
pub record JobRow : Type 0 where
  pub job : ExperimentJob
  pub reserved : ℕ
  pub actual : Option ℕ
  pub heartbeat_at : Option ℕ
  pub provider_error : Option Json

-- What a column of four decimals keeps of so many millionths: PostgreSQL rounds halves up. The
-- column of four decimals counts a hundred millionths.
abbrev pub rounded : ℕ → ℕ
rounded n = (n + 50) / 100

pub record Tables : Type 0 where
  pub manifests : Dict ManifestRow
  pub jobs : Dict JobRow
  pub sessions : Dict Json

-- `async with self.database.session()`: commit, or roll back and raise again.
abbrev pub settle : {A : Type 0} → Tables → Result A × Tables → Result A × Tables
settle before (ok a, t) = (ok a, t)
settle before (err e, t) = (err e, before)

abbrev pub transaction : {A : Type 0} → Action Tables A → Action Tables A
transaction m t = settle t (m t)

-- `scalar_one()`
abbrev pub one_row : {A : Type 0} → Option A → Result A
one_row none = err unknown_key
one_row (some a) = ok a

abbrev pub manifest_of : String → Action Tables ManifestRow
manifest_of id t = (one_row (lookup id t.manifests), t)

abbrev pub job_of : String → Action Tables JobRow
job_of id t = (one_row (lookup id t.jobs), t)

abbrev pub set_manifest : String → ManifestRow → Action Tables (Unit {0})
set_manifest id m = modify (λ t. record t { manifests = put id m t.manifests })

abbrev pub set_job : String → JobRow → Action Tables (Unit {0})
set_job id r = modify (λ t. record t { jobs = put id r t.jobs })

-- `m.stop_requested = false`, for the row that is joined.
abbrev pub goes_on : Option ManifestRow → Bool
goes_on none = false
goes_on (some m) = not m.stop_requested

module _ (now : ℕ) where
  -- The WHERE clause of `claim`.
  unfoldable pub is_candidate : Tables → JobRow → Bool
  is_candidate t r =
      goes_on (lookup r.job.experiment_id t.manifests)
      && (is_waiting r.job.status && leb r.job.not_before now
          || is_held r.job.status && is_before r.job.lease_expires_at now)

  -- ORDER BY not_before, id
  abbrev pub comes_first : String × JobRow → String × JobRow → Bool
  comes_first (i, a) (j, b) =
      ltb a.job.not_before b.job.not_before || a.job.not_before =ℕ b.job.not_before && str_lt i j

  abbrev pub earlier : String × JobRow → Option (String × JobRow) → String × JobRow
  earlier p none = p
  earlier p (some q) = if comes_first q p then q else p

  unfoldable pub candidate : Tables → Dict JobRow → Option (String × JobRow)
  unfolding is_candidate
  candidate t [] = none
  candidate t (p ∷ ps) =
      let rest = candidate t ps in if is_candidate t p.1 then some (earlier p rest) else rest

  abbrev pub leased_to : (worker_id : String) (lease_seconds : ℕ) → JobRow → JobRow
  leased_to worker_id lease_seconds r = record r {
    job = claimed worker_id lease_seconds now r.job;
    heartbeat_at = some now;
  }

  abbrev pub lease :
      (worker_id : String) (lease_seconds : ℕ)
      → Option (String × JobRow)
      → Action Tables (Option ExperimentJob)
  lease worker_id lease_seconds none = pure none
  lease worker_id lease_seconds (some (id, r)) = do
    set_job id (leased_to worker_id lease_seconds r)
    pure (some (claimed worker_id lease_seconds now r.job))

  unfoldable pub claim :
      (worker_id : String) (lease_seconds : ℕ) → Action Tables (Option ExperimentJob)
  unfolding candidate
  claim worker_id lease_seconds t =
      transaction (lease worker_id lease_seconds (candidate t t.jobs)) t

  abbrev pub beaten : (lease_seconds : ℕ) → JobRow → JobRow
  beaten lease_seconds r = record r {
    job = record r.job { lease_expires_at = some (now + lease_seconds); status = running };
    heartbeat_at = some now;
  }

  -- An UPDATE of the row of this identifier and owner, which must meet one row.
  abbrev pub beat :
      (job_id worker_id : String) (lease_seconds : ℕ) → Option JobRow → Action Tables (Unit {0})
  beat job_id worker_id lease_seconds none = raise not_lease_owner
  beat job_id worker_id lease_seconds (some r) = do
    guard (is_owner worker_id r.job.lease_owner) not_lease_owner
    set_job job_id (beaten lease_seconds r)

  unfoldable pub heartbeat :
      (job_id worker_id : String) (lease_seconds : ℕ) → Action Tables (Unit {0})
  heartbeat job_id worker_id lease_seconds t =
      transaction (beat job_id worker_id lease_seconds (lookup job_id t.jobs)) t

-- The ceiling would be passed: the row is marked, and the exception rolls the mark back.
abbrev pub refuse : String → ManifestRow → Action Tables (Unit {0})
refuse id marked = set_manifest id marked >> raise cost_ceiling_exceeded

abbrev pub reserve : ExperimentJob → ℕ → ManifestRow → JobRow → Action Tables (Unit {0})
reserve job amount m r =
    if ltb (100 * m.cost_ceiling) (100 * m.cost_spent + 100 * m.cost_reserved + amount)
    then refuse job.experiment_id
        (record m { stop_requested = true; status = "PAUSED_COST_CEILING" })
    else (set_manifest job.experiment_id
          (record m { cost_reserved = rounded (100 * m.cost_reserved + amount) })
        >> set_job job.job_id (record r { reserved = amount }))

unfoldable pub reserve_cost : ExperimentJob → ℕ → Action Tables (Unit {0})
reserve_cost job amount = transaction (do
  m ← manifest_of job.experiment_id
  r ← job_of job.job_id
  if not (r.reserved =ℕ 0)
      then pure tt
      else (guard (not m.stop_requested) experiment_stopped >> reserve job amount m r))

abbrev pub set_default : String → Json → Dict Json → Dict Json
set_default key result d = if is_none (lookup key d) then put key result d else d

abbrev pub finish : ExperimentJob → Json → ℕ → ManifestRow → JobRow → Action Tables (Unit {0})
finish job result cost m r = do
  set_manifest job.experiment_id (record m {
    cost_reserved = rounded (100 * m.cost_reserved - r.reserved);
    cost_spent = rounded (100 * m.cost_spent + cost);
  })
  modify (λ t. record t { sessions = set_default job.session_key result t.sessions })
  set_job job.job_id
      (record r { job = record r.job { status = succeeded }; actual = some cost; reserved = 0 })

unfoldable pub complete : ExperimentJob → Json → ℕ → Action Tables (Unit {0})
complete job result cost = transaction (do
  m ← manifest_of job.experiment_id
  guard (not m.stop_requested) experiment_stopped
  r ← job_of job.job_id
  if ltb (100 * m.cost_ceiling) (100 * m.cost_spent + cost)
      then refuse job.experiment_id (record m { stop_requested = true })
      else finish job result cost m r)

abbrev pub failed_row : (now : ℕ) → ExperimentJob → Json → Bool → JobRow → JobRow
failed_row now job error retryable r = record r {
  job = record r.job {
    status = if retryable && ltb job.attempt_count job.max_attempts then retry_wait else failed;
    not_before = now + power_of_two job.attempt_count;
    lease_owner = none;
    lease_expires_at = none;
  };
  provider_error = some error;
  reserved = 0;
}

unfoldable pub fail : (now : ℕ) → ExperimentJob → Json → Bool → Action Tables (Unit {0})
fail now job error retryable = transaction (do
  m ← manifest_of job.experiment_id
  r ← job_of job.job_id
  set_manifest job.experiment_id
      (record m { cost_reserved = rounded (100 * m.cost_reserved - r.reserved) })
  set_job job.job_id (failed_row now job error retryable r))

-- An UPDATE of the row of an experiment, if there is one.
abbrev pub marked : String → Bool → String → Option ManifestRow → Action Tables (Unit {0})
marked id stopping status none = pure tt
marked id stopping status (some m) =
    set_manifest id (record m { stop_requested = stopping; status = status })

unfoldable pub stop : String → Action Tables (Unit {0})
stop id t = transaction (marked id true "STOPPED" (lookup id t.manifests)) t

unfoldable pub resume : String → Action Tables (Unit {0})
resume id t = transaction (marked id false "RUNNING" (lookup id t.manifests)) t
