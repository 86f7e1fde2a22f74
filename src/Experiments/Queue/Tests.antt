-- ===== src/Experiments/Queue/Tests.antt =====
-- A queue with one job that waits.
use amlguard_eu_ai_agent.Prelude.{
  String, true, ◌↔◌, ◌≡◌, refl, List, [], ◌∷◌, none, some, ok, Option,
}
use amlguard_eu_ai_agent.Prelude.Dict.{lookup, is_some}
use amlguard_eu_ai_agent.Domain.{null}
use amlguard_eu_ai_agent.Experiments.Models.{ExperimentManifest, ExperimentJob, pending}
use amlguard_eu_ai_agent.Experiments.Queue.{Queue, claim, claimed}
use amlguard_eu_ai_agent.Experiments.Queue.Budget.{
  IsWithin, Operation, claiming, reserving, completing, perform_all, perform_all-IsWithin,
}
use amlguard_eu_ai_agent.Experiments.Queue.Claims.{Entry, IsDue, Handed, claim-ready, claim-Handed}

abbrev sample_manifest : ExperimentManifest
sample_manifest = record {
  experiment_id = "X1";
  configurations = record { configuration_id = "B5"; estimated_session_cost = 100 } ∷ [];
  repetitions = 1;
  evaluation_cost = none;
  randomization_seed = 7;
  cost_ceiling = 500;
}

abbrev sample_job : ExperimentJob
sample_job = record {
  job_id = "J1";
  experiment_id = "X1";
  session_key = "K1";
  configuration_id = "B5";
  scenario_id = "S1";
  repetition = 1;
  status = pending;
  attempt_count = 0;
  max_attempts = 3;
  lease_owner = none;
  lease_expires_at = none;
  not_before = 10;
  estimated_cost = 100;
}

abbrev sample_queue : Queue
sample_queue = record {
  manifests = ("X1", sample_manifest) ∷ [];
  jobs = ("J1", sample_job) ∷ [];
  results = [];
  stopped = [];
  costs = [];
  reservations = [];
}

sample_queue-IsWithin : IsWithin sample_queue
unfolding lookup
sample_queue-IsWithin = record { within = λ id m c em ec. absurd cc }

abbrev calls : List Operation
calls = claiming "w" 120 10 ∷ reserving sample_job 100 ∷ completing sample_job null 600 ∷ []

perform_all-IsWithin_example : IsWithin (perform_all calls sample_queue)
perform_all-IsWithin_example = perform_all-IsWithin calls sample_queue sample_queue-IsWithin

claim-ready_example :
    (c : Option ExperimentJob) × ((claim "w" 120 10 sample_queue).0 ≡ ok c)
    × ((is_some c ≡ true) ↔ (
        (k : String) × (j : ExperimentJob) × Entry sample_queue.jobs (k, j)
        × IsDue "w" 120 10 [] j))
claim-ready_example = claim-ready "w" 120 10 sample_queue

handed :
    (q' : Queue) × (claim "w" 120 10 sample_queue ≡ (ok (some (claimed "w" 120 10 sample_job)), q'))
unfolding claim
handed = (_, refl)

claim-Handed_example : Handed "w" 120 10 sample_queue handed.0 (claimed "w" 120 10 sample_job)
claim-Handed_example =
    claim-Handed "w" 120 10 sample_queue handed.0 (claimed "w" 120 10 sample_job) handed.1
