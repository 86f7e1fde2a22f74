-- ===== src/Simulation/Models.antt =====
-- src/amlguard/simulation/models.py, the records that the modelled code reads. A Decimal amount is
-- a natural number of cents, an instant a natural number of seconds.
use amlguard_eu_ai_agent.Prelude.{ℕ, String, Option, List}
use amlguard_eu_ai_agent.Prelude.Dict.{Dict}
use amlguard_eu_ai_agent.Domain.{Json}

pub record Customer : Type 0 where
  pub customer_id : String
  pub customer_type : String
  pub display_token : String
  pub country_code : String
  pub occupation_or_sector : String
  pub expected_monthly_turnover : ℕ
  pub risk_level : String

pub record Kyc : Type 0 where
  pub kyc_id : String
  pub customer_id : String
  pub purpose : String
  pub expected_activity : Dict Json
  pub status : String

pub record Transaction : Type 0 where
  pub transaction_id : String
  pub account_id : String
  pub customer_id : String
  pub counterparty_id : Option String
  pub booked_at : ℕ
  pub amount : ℕ
  pub currency : String
  pub direction : String
  pub description : String
  pub injected_scenario_id : Option String

pub record Alert : Type 0 where
  pub alert_id : String
  pub customer_id : String
  pub rule_id : String
  pub rule_version : String
  pub causal_transaction_ids : List String
  pub calculation_trace : Dict Json
  pub created_at : ℕ

pub record Bank : Type 0 where
  pub customers : List Customer
  pub kyc_records : List Kyc
  pub transactions : List Transaction
  pub alerts : List Alert
