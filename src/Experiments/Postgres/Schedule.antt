-- ===== src/Experiments/Postgres/Schedule.antt =====
-- `schedule` of `PostgresExperimentQueue` in src/amlguard/experiments/queue.py. `same_dump` compares
-- the dumps of two manifests. The unique session key of the table makes a second row raise.
use amlguard_eu_ai_agent.Prelude.{
  ℕ, suc, String, Bool, false, Option, none, some, List, [], ◌∷◌, not, ◌==◌, Action, pure, lift,
  gets, guard, ◌>>=◌, ◌>>◌, map, external_failure, different_manifest, if◌then◌else◌,
}
use amlguard_eu_ai_agent.Prelude.Dict.{lookup, values}
use amlguard_eu_ai_agent.Prelude.Lists.{any, select}
use amlguard_eu_ai_agent.Prelude.Sets.{contains}
use amlguard_eu_ai_agent.Experiments.Models.{ExperimentManifest, ExperimentJob}
use amlguard_eu_ai_agent.Experiments.Queue.Schedule.{
  Outside, Session, sessions, new_job, estimated_job_cost,
}
use amlguard_eu_ai_agent.Experiments.Postgres.{
  rounded, ManifestRow, JobRow, Tables, transaction, set_manifest, set_job,
}

abbrev pub new_manifest : ExperimentManifest → ManifestRow
new_manifest m = record {
  manifest = m;
  stop_requested = false;
  status = "CREATED";
  cost_ceiling = rounded m.cost_ceiling;
  cost_spent = 0;
  cost_reserved = 0;
}

abbrev pub new_row : ExperimentJob → JobRow
new_row job = record {
  job = job;
  reserved = 0;
  actual = none;
  heartbeat_at = none;
  provider_error = none;
}

-- The session keys of the stored jobs of an experiment.
unfoldable pub existing_keys : String → Tables → List String
existing_keys id t =
    map (λ r. r.job.session_key) (select (λ r. r.job.experiment_id == id) (values t.jobs))

module _ (o : Outside) (same_dump : ExperimentManifest → ExperimentManifest → Bool)
    (m : ExperimentManifest) where
  abbrev pub store_manifest : Option ManifestRow → Action Tables (Unit {0})
  store_manifest none = set_manifest m.experiment_id (new_manifest m)
  store_manifest (some row) = guard (same_dump row.manifest m) different_manifest

  -- The rows that the loop adds; the n-th of them is stored under `draw n`.
  unfoldable pub add_rows :
      (now : ℕ) (draw : ℕ → String) → List String → ℕ → List Session → Action Tables ℕ
  add_rows now draw existing n [] t = pure n t
  add_rows now draw existing n (s ∷ ss) t =
      let skip = add_rows now draw existing n ss in
      let next = add_rows now draw existing (suc n) ss in
      if contains existing s.key
      then skip t
      else (lift (estimated_job_cost m s.configuration_id) >>= λ cost.
            guard (not (any (λ r. r.job.session_key == s.key) (values t.jobs))) external_failure
            >> (set_job (draw n) (new_row (new_job o m now (draw n) cost s)) >> next))
          t

  unfoldable pub schedule : (now : ℕ) (draw : ℕ → String) → List String → Action Tables ℕ
  unfolding add_rows existing_keys
  schedule now draw scenario_ids = transaction (do
    row ← gets (λ t. lookup m.experiment_id t.manifests)
    store_manifest row
    existing ← gets (existing_keys m.experiment_id)
    add_rows now draw existing 0 (sessions o m scenario_ids))
