-- ===== src/Samples.antt =====
-- A small bank, a case and its evidence, on which the witnesses of the components run the code.
use Prim.Native.String.{◌++◌ as str_append}
use amlguard_eu_ai_agent.Prelude.{
  String, none, some, [], ◌∷◌, ok, false, true, err, external_failure,
}
use amlguard_eu_ai_agent.Domain.{
  Json, str, obj, Fields, no_fields, field, CaseData, open_case, EvidenceItem, Recommendation,
  HumanReview, approve, escalate_to_human_aml_analyst,
}
use amlguard_eu_ai_agent.Auth.{Actor}
use amlguard_eu_ai_agent.Simulation.Models.{Transaction, Alert, Bank}
use amlguard_eu_ai_agent.Tools.Repository.{Repository}
use amlguard_eu_ai_agent.Tools.Service.{External, CaseAuthorization, Tools}
use amlguard_eu_ai_agent.Policy.Models.{
  PolicyChunk, AlertPolicyMapping, initial_analysis, alert_mapping,
}
use amlguard_eu_ai_agent.Policy.Retrieval.{PolicyIndex, PolicyMatch}
use amlguard_eu_ai_agent.Graph.State.{InvestigationState, Submission, World, Services}
use amlguard_eu_ai_agent.Graph.Engine.{Runtime}

abbrev text : Fields → String
text no_fields = ""
text (field k (str s) fs) = str_append s (text fs)
text (field k _ fs) = str_append k (text fs)

-- A stand-in for the digest: the texts of an object, one after the other.
abbrev pub sample_digest : Json → String
sample_digest (obj fs) = text fs
sample_digest _ = ""

abbrev pub investigator : Actor
investigator = record { actor_id = "ivy"; roles = "investigator" ∷ []; tenant_id = "bank" }

abbrev pub sample_alert : Alert
sample_alert = record {
  alert_id = "A1";
  customer_id = "K1";
  rule_id = "STRUCTURING";
  rule_version = "1";
  causal_transaction_ids = "T1" ∷ [];
  calculation_trace = [];
  created_at = 10;
}

abbrev pub sample_transaction : Transaction
sample_transaction = record {
  transaction_id = "T1";
  account_id = "ACC1";
  customer_id = "K1";
  counterparty_id = none;
  booked_at = 9;
  amount = 990000;
  currency = "EUR";
  direction = "CREDIT";
  description = "cash deposit";
  injected_scenario_id = none;
}

abbrev pub sample_bank : Bank
sample_bank = record {
  customers =
      record {
        customer_id = "K1";
        customer_type = "PERSON";
        display_token = "customer one";
        country_code = "FR";
        occupation_or_sector = "retail";
        expected_monthly_turnover = 300000;
        risk_level = "LOW";
      }
      ∷ [];
  kyc_records =
      record {
        kyc_id = "Y1";
        customer_id = "K1";
        purpose = "salary";
        expected_activity = [];
        status = "CURRENT";
      }
      ∷ [];
  transactions = sample_transaction ∷ [];
  alerts = sample_alert ∷ [];
}

abbrev pub sample_case : CaseData
sample_case = record {
  case_id = "C1";
  run_id = "R1";
  alert_id = "A1";
  customer_id = "K1";
  tenant_id = "bank";
  assigned_investigator_id = "ivy";
  assigned_reviewer_id = none;
  status = open_case;
  recommendation = none;
  recommendation_version = 0;
  reviews = [];
}

abbrev pub empty_repository : Repository
empty_repository = record { bank = sample_bank; cases = []; audit_events = [] }

abbrev pub sample_repository : Repository
sample_repository = record {
  bank = sample_bank;
  cases = ("C1", sample_case) ∷ [];
  audit_events = [];
}

abbrev pub sample_evidence : EvidenceItem
sample_evidence = record {
  evidence_id = "ALERT-A1";
  evidence_type = "alert";
  source_record_id = "A1";
  case_id = "C1";
  customer_id = "K1";
  content = [];
  content_hash = "h1";
  provenance = "synthetic bank";
}

abbrev pub sample_recommendation : Recommendation
sample_recommendation = record {
  recommendation = escalate_to_human_aml_analyst;
  summary = "repeated cash deposits";
  material_findings =
      record {
        claim = "deposits below the threshold";
        evidence_ids = "ALERT-A1" ∷ [];
        policy_ids = "P1" ∷ [];
        assessment = "SUPPORTED";
        claim_type = "FACT";
      }
      ∷ [];
  counter_indicators = [];
  missing_information = [];
}

abbrev pub sample_review : HumanReview
sample_review = record {
  case_id = "C1";
  recommendation_version = 1;
  action = approve;
  reviewer_id = "rob";
  rationale = "agreed";
  edited_recommendation = none;
}

abbrev pub sample_external : External
sample_external = record {
  digest = sample_digest;
  alert_json = λ a. ("alert_id", str a.alert_id) ∷ [];
  kyc_json = λ k. ("kyc_id", str k.kyc_id) ∷ [];
  transaction_json = λ t. ("transaction_id", str t.transaction_id) ∷ [];
  execution_json = λ e. ("tool_name", str e.tool_name) ∷ [];
  decimal_text = λ n. "100.00";
}

abbrev pub sample_authorization : CaseAuthorization
sample_authorization = record { case_id = "C1"; customer_id = "K1"; actor_id = "ivy" }

abbrev pub sample_tools : Tools
sample_tools = record { repository = sample_repository; executions = [] }

abbrev pub sample_chunk : PolicyChunk
sample_chunk = record {
  policy_id = "P1";
  source_id = "S1";
  provision = "Article 1";
  text = "report cash deposits";
  topics = "cash" ∷ [];
  jurisdiction = "EU";
  effective_from = some 5;
  effective_to = none;
  approved = true;
}

abbrev pub sample_mapping : AlertPolicyMapping
sample_mapping = record {
  alert_rule_id = "STRUCTURING";
  always_policy_rules =
      record {
        policy_id = "P1";
        stage = initial_analysis;
        rationale = "cash";
        when_all = [];
        when_any = [];
      }
      ∷ [];
  conditional_policy_rules = [];
  aml_expert_reviewed = false;
  reviewer_id = none;
  reviewed_at = none;
}

abbrev pub sample_index : PolicyIndex
sample_index = record {
  chunks = sample_chunk ∷ [];
  alert_mappings = ("STRUCTURING", sample_mapping) ∷ [];
}

abbrev pub sample_match : PolicyMatch
sample_match = record {
  chunk = sample_chunk;
  score = record { hits = 1; of_tokens = 1 };
  reason = alert_mapping;
  stage = some initial_analysis;
  matched_fact_ids = [];
  explanation = "cash";
}

abbrev pub sample_services : Services
sample_services = record {
  external = sample_external;
  recommend = λ call es ps ms condition feedback. ok sample_recommendation;
  hook_raises = λ earlier event. false;
  select_policies = λ es. ok (record { as_of_date = 20; facts = []; matches = sample_match ∷ [] });
  information_id = λ case_id version submission. submission;
  failure_json = λ stage error. ("stage", str stage) ∷ [];
}

abbrev pub sample_state : InvestigationState
sample_state = record {
  run_id = "R1";
  case_id = "C1";
  alert_id = "A1";
  customer_id = "K1";
  actor_id = "ivy";
  context_condition = "standard";
  evidence = sample_evidence ∷ [];
  policies = sample_chunk ∷ [];
  policy_applicability_facts = [];
  policy_retrieval = [];
  policy_as_of_date = none;
  recommendation = some sample_recommendation;
  recommendation_version = 1;
  control_results = [];
  security_events = [];
  hard_blocks = [];
  reviewer_feedback = none;
  review = none;
  status = open_case;
  errors = [];
}

abbrev pub sample_submission : Submission
sample_submission = record { actor_id = "ivy"; information = []; submission_id = "S1" }

abbrev pub sample_world : World
sample_world = record { tools = sample_tools; events = []; llm_calls = 0 }

abbrev pub sample_runtime : Runtime
sample_runtime = record {
  resume_idle = λ case_id. ok tt;
  delete_thread = λ case_id. ok tt;
  interrupted = λ old. old;
  place = λ p st. p;
  update_missing = λ case_id events blocks. err external_failure;
}
