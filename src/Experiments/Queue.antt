-- ===== src/Experiments/Queue.antt =====
-- src/amlguard/experiments/queue.py: `InMemoryExperimentQueue`. The instant that `now` returns is an
-- argument. `schedule` is in the module Schedule.
pub mod Schedule
pub mod Budget
pub mod Claims
mod Tests
use Prim.Native.String.{◌++◌ as str_append}
use amlguard_eu_ai_agent.Prelude.{
  ℕ, zero, suc, String, Bool, true, false, Option, none, some, List, [], ◌∷◌, ◌++◌, map, ◌+◌, ◌*◌,
  ◌&&◌, ◌||◌, not, ◌==◌, leb, ltb, Action, pure, raise, lift, gets, modify, guard, ◌>>=◌, ◌>>◌,
  Result, ok, err, unknown_key, not_lease_owner, cost_ceiling_exceeded, if◌then◌else◌,
}
use amlguard_eu_ai_agent.Prelude.Dict.{Dict, lookup, put, remove, values, is_some}
use amlguard_eu_ai_agent.Prelude.Lists.{select, length}
use amlguard_eu_ai_agent.Prelude.Sets.{contains}
use amlguard_eu_ai_agent.Domain.{Json}
use amlguard_eu_ai_agent.Experiments.Models.{
  JobStatus, pending, leased, running, retry_wait, succeeded, failed, SystemConfiguration,
  ExperimentManifest, ExperimentJob,
}

pub record Reservation : Type 0 where
  pub experiment_id : String
  pub amount : ℕ

pub record Queue : Type 0 where
  pub manifests : Dict ExperimentManifest
  pub jobs : Dict ExperimentJob
  pub results : Dict Json
  pub stopped : List String
  pub costs : Dict ℕ
  pub reservations : Dict Reservation

-- `d[k]`
abbrev pub get_item : {V : Type 0} → Option V → Result V
get_item none = err unknown_key
get_item (some v) = ok v

-- `d.get(k, Decimal("0"))`
abbrev pub amount_or_zero : Option ℕ → ℕ
amount_or_zero none = 0
amount_or_zero (some n) = n

abbrev pub is_waiting : JobStatus → Bool
is_waiting pending = true
is_waiting retry_wait = true
is_waiting _ = false

abbrev pub is_held : JobStatus → Bool
is_held leased = true
is_held running = true
is_held _ = false

abbrev pub is_before : Option ℕ → ℕ → Bool
is_before none now = false
is_before (some t) now = ltb t now

module _ (worker_id : String) (lease_seconds now : ℕ) where
  abbrev pub claimed : ExperimentJob → ExperimentJob
  claimed j = record j {
    status = leased;
    lease_owner = some worker_id;
    lease_expires_at = some (now + lease_seconds);
    attempt_count = j.attempt_count + 1;
  }

  -- May the loop of `claim` hand out this job?
  abbrev pub is_ready : List String → ExperimentJob → Bool
  is_ready stopped j =
      not (contains stopped j.experiment_id) && (is_waiting j.status && leb j.not_before now)

  -- Does the loop of `claim` take the lease of this job back?
  abbrev pub is_expired : List String → ExperimentJob → Bool
  is_expired stopped j =
      not (contains stopped j.experiment_id)
      && (is_held j.status && is_before j.lease_expires_at now)

  abbrev pub recovered : ExperimentJob → ExperimentJob
  recovered j = record j { status = pending; lease_owner = none }

  unfoldable pub claim_jobs :
      List String → Dict ExperimentJob → Option ExperimentJob × Dict ExperimentJob
  claim_jobs stopped [] = (none, [])
  claim_jobs stopped ((k, j) ∷ d) =
      let rest = claim_jobs stopped d in
      if is_ready stopped j
      then (some (claimed j), (k, claimed j) ∷ d)
      else if is_expired stopped j
      then (rest.0, (k, recovered j) ∷ rest.1)
      else (rest.0, (k, j) ∷ rest.1)

  unfoldable pub claim : Action Queue (Option ExperimentJob)
  unfolding claim_jobs
  claim q = let (c, d) = claim_jobs q.stopped q.jobs in (ok c, record q { jobs = d })

abbrev pub is_owner : String → Option String → Bool
is_owner w none = false
is_owner w (some v) = v == w

abbrev pub store_job : String → ExperimentJob → Action Queue Unit
store_job id j = modify λ q. record q { jobs = put id j q.jobs }

unfoldable pub heartbeat : (job_id worker_id : String) (lease_seconds now : ℕ) → Action Queue Unit
heartbeat job_id worker_id lease_seconds now q =
    let m : Action Queue Unit = do
      job ← lift (get_item (lookup job_id q.jobs))
      guard (is_owner worker_id job.lease_owner) not_lease_owner
      store_job job_id (record job { lease_expires_at = some (now + lease_seconds) })
    in m q

-- `self.stopped.add(experiment_id)`
unfoldable pub stop : String → Action Queue Unit
stop id =
    modify λ q. record q { stopped = if contains q.stopped id then q.stopped else id ∷ q.stopped }

-- `self.stopped.discard(experiment_id)`
unfoldable pub resume : String → Action Queue Unit
resume id = modify λ q. record q { stopped = select (λ x. not (x == id)) q.stopped }

-- `self.reservations.pop(session_key, None)`
abbrev pub release : String → Action Queue Unit
release key = modify λ q. record q { reservations = remove key q.reservations }

abbrev pub refuse : String → Action Queue Unit
refuse id = stop id >> raise cost_ceiling_exceeded

-- `results.setdefault(key, result)`
abbrev pub set_default : String → Json → Dict Json → Dict Json
set_default key r d = if is_some (lookup key d) then d else put key r d

-- The end of `complete`, below the test of the ceiling.
unfoldable pub record_result : ExperimentJob → Json → ℕ → Action Queue Unit
record_result job result total = do
  modify (λ q. record q { costs = put job.experiment_id total q.costs })
  modify (λ q. record q { results = set_default job.session_key result q.results })
  jobs ← gets (λ q. q.jobs)
  current ← lift (get_item (lookup job.job_id jobs))
  store_job job.job_id (record current { status = succeeded })

unfoldable pub complete : ExperimentJob → Json → ℕ → Action Queue Unit
unfolding record_result
complete job result cost q =
    let spent = amount_or_zero (lookup job.experiment_id q.costs) in
    let m : Action Queue Unit = do
      manifest ← lift (get_item (lookup job.experiment_id q.manifests))
      release job.session_key
      if ltb manifest.cost_ceiling (spent + cost)
          then refuse job.experiment_id
          else record_result job result (spent + cost)
    in m q

-- The sum over the reservations of an experiment.
unfoldable pub reserved : String → Dict Reservation → ℕ
reserved id [] = 0
reserved id ((k, r) ∷ d) =
    let rest = reserved id d in if r.experiment_id == id then r.amount + rest else rest

unfoldable pub reserve_cost : ExperimentJob → ℕ → Action Queue Unit
unfolding reserved
reserve_cost job amount q =
    let id = job.experiment_id in
    let total = amount_or_zero (lookup id q.costs) + reserved id q.reservations + amount in
    let m : Action Queue Unit = do
      manifest ← lift (get_item (lookup id q.manifests))
      if ltb manifest.cost_ceiling total
          then refuse id
          else modify (λ q. record q {
            reservations =
                put job.session_key (record { experiment_id = id; amount = amount }) q.reservations;
          })
    in if is_some (lookup job.session_key q.reservations) then (ok tt, q) else m q

-- `2**n`
abbrev pub power_of_two : ℕ → ℕ
power_of_two zero = 1
power_of_two (suc n) = 2 * power_of_two n

abbrev pub failed_job : (now : ℕ) → Bool → ExperimentJob → ExperimentJob
failed_job now retryable j = record j {
  status = if retryable && ltb j.attempt_count j.max_attempts then retry_wait else failed;
  not_before = now + power_of_two j.attempt_count;
  lease_owner = none;
  lease_expires_at = none;
}

unfoldable pub fail : (now : ℕ) → ExperimentJob → Bool → Action Queue Unit
fail now job retryable = do
  release job.session_key
  jobs ← gets (λ q. q.jobs)
  current ← lift (get_item (lookup job.job_id jobs))
  store_job job.job_id (failed_job now retryable current)
