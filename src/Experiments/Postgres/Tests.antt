-- ===== src/Experiments/Postgres/Tests.antt =====
-- The tables of one experiment with one job, which is claimed and reserved for.
use amlguard_eu_ai_agent.Prelude.{
  String, true, ◌==◌, ◌≤◌, Bool-cases, inl, inr, subst, if◌then◌else◌, ◌≡◌, refl, some, none, [],
  ◌∷◌, arith,
}
use amlguard_eu_ai_agent.Prelude.Dict.{lookup, keys, put}
use amlguard_eu_ai_agent.Experiments.Models.{ExperimentManifest, ExperimentJob, pending}
use amlguard_eu_ai_agent.Experiments.Postgres.{
  leased_to, claim, candidate, is_candidate, JobRow, ManifestRow, Tables,
}
use amlguard_eu_ai_agent.Experiments.Postgres.Schedule.{new_manifest, new_row}
use amlguard_eu_ai_agent.Experiments.Postgres.Accounted.{Accounted, reserved_of}
use amlguard_eu_ai_agent.Experiments.Postgres.Spending.{
  Reached, IsProper, started, called, claiming, reserving, perform, Reached-Accounted,
}

abbrev one_manifest : ExperimentManifest
one_manifest = record {
  experiment_id = "E1";
  configurations = [];
  repetitions = 1;
  evaluation_cost = none;
  randomization_seed = 7;
  cost_ceiling = 1000000;
}

abbrev one_job : ExperimentJob
one_job = record {
  job_id = "J1";
  experiment_id = "E1";
  session_key = "S1";
  configuration_id = "B5";
  scenario_id = "D1";
  repetition = 1;
  status = pending;
  attempt_count = 0;
  max_attempts = 3;
  lease_owner = none;
  lease_expires_at = none;
  not_before = 0;
  estimated_cost = 4050;
}

abbrev scheduled : Tables
scheduled = record {
  manifests = ("E1", new_manifest one_manifest) ∷ [];
  jobs = ("J1", new_row one_job) ∷ [];
  sessions = [];
}

only_row :
    (id : String) (m : ManifestRow)
    → lookup id scheduled.manifests ≡ some m
    → (("E1" == id) ≡ true) × (new_manifest one_manifest ≡ m)
unfolding lookup
only_row id m e = elim (Bool-cases ("E1" == id)) [
  | inl here ↦
      let same : some (new_manifest one_manifest) ≡ some m =
        subst (λ b. (if b then some (new_manifest one_manifest) else none) ≡ some m) here e in
      (here, cc same)
  | inr other ↦
      let none_of_it : none ≡ some m =
        subst (λ b. (if b then some (new_manifest one_manifest) else none) ≡ some m) other e in
      absurd (cc none_of_it)
]

at_start : Accounted scheduled
unfolding reserved_of keys
at_start = record {
  distinct = refl;
  within = λ id m e.
      subst (λ (y : ManifestRow). y.cost_spent ≤ y.cost_ceiling) (only_row id m e).1 (omega arith);
  covered = λ id m e.
      subst (λ (y : ManifestRow). reserved_of id scheduled.jobs ≤ y.cost_reserved)
        (only_row id m e).1 (rw (only_row id m e).0 (omega arith));
}

fits : IsProper (reserving one_job 4050) (perform (claiming 5 "W1" 60) scheduled)
unfolding perform lookup claim put candidate is_candidate
fits r e =
    let found : some (leased_to 5 "W1" 60 (new_row one_job)) ≡ some r = e in
    let same : leased_to 5 "W1" 60 (new_row one_job) ≡ r = cc found in
    subst (λ (y : JobRow). y.job.experiment_id ≡ "E1") same refl

reached :
    Reached scheduled (perform (reserving one_job 4050) (perform (claiming 5 "W1" 60) scheduled))
reached = called (reserving one_job 4050) fits (called (claiming 5 "W1" 60) tt started)

Reached-Accounted_example :
    Accounted (perform (reserving one_job 4050) (perform (claiming 5 "W1" 60) scheduled))
Reached-Accounted_example = Reached-Accounted scheduled _ at_start reached
