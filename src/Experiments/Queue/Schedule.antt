-- ===== src/Experiments/Queue/Schedule.antt =====
-- `schedule` of src/amlguard/experiments/queue.py. The identifier that `uuid4()` draws for the n-th
-- job of a call is an argument; `Outside` holds the SHA-256 of a text, the text of a number and the
-- shuffle of `random.Random(seed)`.
use Prim.Native.String.{◌++◌ as str_append}
use amlguard_eu_ai_agent.Prelude.{
  ℕ, zero, suc, String, Option, none, some, List, [], ◌∷◌, ◌++◌, map, ◌+◌, ◌==◌, Action, pure, lift,
  gets, modify, ◌>>=◌, ◌>>◌, Result, ok, err, unknown_key, if◌then◌else◌,
}
use amlguard_eu_ai_agent.Prelude.Dict.{put, values}
use amlguard_eu_ai_agent.Prelude.Lists.{length}
use amlguard_eu_ai_agent.Prelude.Sets.{contains}
use amlguard_eu_ai_agent.Experiments.Models.{
  pending, SystemConfiguration, ExperimentManifest, ExperimentJob,
}
use amlguard_eu_ai_agent.Experiments.Queue.{Queue, amount_or_zero}

-- The tuples of the list `keys` of `schedule`.
pub record Session : Type 0 where
  pub key : String
  pub configuration_id : String
  pub scenario_id : String
  pub repetition : ℕ

pub record Outside : Type 0 where
  pub hash : String → String
  pub number_text : ℕ → String
  pub shuffle : ℕ → List Session → List Session

unfoldable pub session_key : Outside → String → String → String → ℕ → String
session_key o experiment configuration scenario repetition =
    let rest = str_append (str_append scenario ":") (o.number_text repetition) in
    let end = str_append (str_append configuration ":") rest in
    o.hash (str_append (str_append experiment ":") end)

find_configuration : String → List SystemConfiguration → Option SystemConfiguration
find_configuration id [] = none
find_configuration id (c ∷ cs) =
    let rest = find_configuration id cs in if c.configuration_id == id then some c else rest

cost_with : ExperimentManifest → Option SystemConfiguration → Result ℕ
cost_with m none = err unknown_key
cost_with m (some c) = ok (c.estimated_session_cost + amount_or_zero m.evaluation_cost)

unfoldable pub estimated_job_cost : ExperimentManifest → String → Result ℕ
unfolding find_configuration cost_with
estimated_job_cost m id = cost_with m (find_configuration id m.configurations)

module _ (o : Outside) (m : ExperimentManifest) where
  -- `for repetition in range(1, repetitions + 1)`, from the last one back.
  repeated : String → String → ℕ → List Session
  repeated c s zero = []
  repeated c s (suc n) =
      repeated c s n
      ++ record {
        key = session_key o m.experiment_id c s (suc n);
        configuration_id = c;
        scenario_id = s;
        repetition = suc n;
      }
        ∷ []

  for_scenarios : String → List String → List Session
  for_scenarios c [] = []
  for_scenarios c (s ∷ ss) = repeated c s m.repetitions ++ for_scenarios c ss

  for_configurations : List String → List SystemConfiguration → List Session
  for_configurations ss [] = []
  for_configurations ss (c ∷ cs) = for_scenarios c.configuration_id ss ++ for_configurations ss cs

  unfoldable pub sessions : List String → List Session
  unfolding for_configurations for_scenarios repeated
  sessions ss = o.shuffle m.randomization_seed (for_configurations ss m.configurations)

  abbrev pub new_job : (now : ℕ) (job_id : String) (cost : ℕ) → Session → ExperimentJob
  new_job now job_id cost s = record {
    job_id = job_id;
    experiment_id = m.experiment_id;
    session_key = s.key;
    configuration_id = s.configuration_id;
    scenario_id = s.scenario_id;
    repetition = s.repetition;
    status = pending;
    attempt_count = 0;
    max_attempts = 3;
    lease_owner = none;
    lease_expires_at = none;
    not_before = now;
    estimated_cost = cost;
  }

  add_jobs : (now : ℕ) (draw : ℕ → String) → List String → ℕ → List Session → Action Queue Unit
  add_jobs now draw existing n [] q = (ok tt, q)
  add_jobs now draw existing n (s ∷ ss) q =
      let skip = add_jobs now draw existing n ss in
      let next = add_jobs now draw existing (suc n) ss in
      if contains existing s.key
      then skip q
      else (lift (estimated_job_cost m s.configuration_id) >>= λ cost.
            modify (λ q. record q { jobs = put (draw n) (new_job now (draw n) cost s) q.jobs })
            >> next)
          q

  unfoldable pub schedule : (now : ℕ) (draw : ℕ → String) → List String → Action Queue ℕ
  unfolding add_jobs sessions
  schedule now draw scenario_ids = do
    modify (λ q. record q { manifests = put m.experiment_id m q.manifests })
    existing ← gets (λ q. map (λ j. j.session_key) (values q.jobs))
    add_jobs now draw existing 0 (sessions scenario_ids)
    pure (length (sessions scenario_ids))
