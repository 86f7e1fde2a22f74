-- ===== src/Experiments/Models.antt =====
-- src/amlguard/domain/experiments.py, what the queue reads of it, and `JobStatus` of enums.py.
-- Amounts are natural numbers of millionths of a euro, instants natural numbers of seconds.
use amlguard_eu_ai_agent.Prelude.{ℕ, String, Option, List}

pub data JobStatus : Type 0 where
  pending leased running retry_wait succeeded failed cancelled : JobStatus

pub record SystemConfiguration : Type 0 where
  pub configuration_id : String
  pub estimated_session_cost : ℕ

-- `proofagent` is given by the estimated cost of its evaluation.
pub record ExperimentManifest : Type 0 where
  pub experiment_id : String
  pub configurations : List SystemConfiguration
  pub repetitions : ℕ
  pub evaluation_cost : Option ℕ
  pub randomization_seed : ℕ
  pub cost_ceiling : ℕ

pub record ExperimentJob : Type 0 where
  pub job_id : String
  pub experiment_id : String
  pub session_key : String
  pub configuration_id : String
  pub scenario_id : String
  pub repetition : ℕ
  pub status : JobStatus
  pub attempt_count : ℕ
  pub max_attempts : ℕ
  pub lease_owner : Option String
  pub lease_expires_at : Option ℕ
  pub not_before : ℕ
  pub estimated_cost : ℕ
