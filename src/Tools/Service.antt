-- ===== src/Tools/Service.antt =====
-- src/amlguard/tools/service.py and authorization.py: `InvestigationTools` over its repository.
-- Durations, spans and log lines are left out. `External` holds what the code takes from
-- third-party packages: the SHA-256 of canonical JSON, pydantic's `model_dump`, `str(Decimal)`.
pub mod Rules
pub mod Scope
pub mod Prohibited
mod Tests
use Prim.Native.String.{◌++◌ as str_append}
use amlguard_eu_ai_agent.Prelude.{
  ℕ, String, Bool, true, false, Option, none, some, List, [], ◌∷◌, ◌++◌, map, ◌&&◌, not, ◌==◌,
  Action, pure, raise, modify, guard, ◌>>=◌, ◌>>◌, leb, tool_not_authorized, limit_out_of_range,
  unknown_key, if◌then◌else◌,
}
use amlguard_eu_ai_agent.Prelude.Dict.{Dict}
use amlguard_eu_ai_agent.Prelude.Lists.{take_last}
use amlguard_eu_ai_agent.Prelude.Sets.{contains}
use amlguard_eu_ai_agent.Domain.{Json, num, str, ToolExecution, EvidenceItem}
use amlguard_eu_ai_agent.Simulation.Models.{Customer, Kyc, Transaction, Alert}
use amlguard_eu_ai_agent.Evidence.{evidence_from_model}
use amlguard_eu_ai_agent.Tools.Repository
use amlguard_eu_ai_agent.Tools.Repository.{Repository}

pub record External : Type 0 where
  pub digest : Json → String
  pub alert_json : Alert → Dict Json
  pub kyc_json : Kyc → Dict Json
  pub transaction_json : Transaction → Dict Json
  pub execution_json : ToolExecution → Dict Json
  pub decimal_text : ℕ → String

pub record CaseAuthorization : Type 0 where
  pub case_id : String
  pub customer_id : String
  pub actor_id : String

-- `InvestigationTools`: the repository and the list `executions`.
pub record Tools : Type 0 where
  pub repository : Repository
  pub executions : List ToolExecution

abbrev pub prohibited : List String
prohibited =
    "submit_str" ∷ "freeze_account" ∷ "block_transaction" ∷ "contact_customer" ∷ "update_kyc" ∷ []

abbrev pub on_repository : {A : Type 0} → Action Repository A → Action Tools A
on_repository m t = let (r, s) = m t.repository in (r, record t { repository = s })

abbrev pub executed : ToolExecution → Action Tools Unit
executed e = modify λ t. record t { executions = t.executions ++ e ∷ [] }

-- `CaseAuthorization.require_customer`: does it return?
unfoldable pub require_customer : CaseAuthorization → String → Bool
require_customer auth requested = requested == auth.customer_id

module _ (x : External) where
  abbrev pub audited : String → CaseAuthorization → ToolExecution → Action Tools Unit
  audited event auth e =
      on_repository
        (Repository.audit x.digest event auth.actor_id auth.case_id (x.execution_json e))

  abbrev pub denial : CaseAuthorization → String → String → ToolExecution
  denial auth customer_id tool_name = record {
    case_id = auth.case_id;
    tool_name = tool_name;
    sanitized_arguments = ("customer_id", str customer_id) ∷ [];
    authorized = false;
    evidence_ids = [];
    error_code = some "CROSS_SCOPE_ACCESS";
  }

  unfoldable pub authorize : CaseAuthorization → String → String → Action Tools Unit
  unfolding require_customer
  authorize auth customer_id tool_name = if require_customer auth customer_id then pure tt else do
    let execution = denial auth customer_id tool_name
    executed execution
    audited "tool_authorization_denied" auth execution
    raise tool_not_authorized

  abbrev pub access : CaseAuthorization → String → Dict Json → List EvidenceItem → ToolExecution
  access auth tool_name arguments evidence = record {
    case_id = auth.case_id;
    tool_name = tool_name;
    sanitized_arguments = arguments;
    authorized = true;
    evidence_ids = map (λ e. e.evidence_id) evidence;
    error_code = none;
  }

  unfoldable pub record_access :
      CaseAuthorization → String → Dict Json → List EvidenceItem → Action Tools Unit
  record_access auth tool_name arguments evidence = do
    let execution = access auth tool_name arguments evidence
    executed execution
    audited "tool_access" auth execution

  abbrev pub alert_evidence : CaseAuthorization → Alert → EvidenceItem
  alert_evidence auth a =
      evidence_from_model x.digest (str_append "ALERT-" a.alert_id) "alert" a.alert_id auth.case_id
        auth.customer_id (x.alert_json a) "deterministic_monitoring_engine"

  unfoldable pub get_alert : CaseAuthorization → String → Action Tools EvidenceItem
  unfolding authorize record_access
  get_alert auth alert_id = do
    alert ← on_repository (Repository.get_alert alert_id)
    authorize auth alert.customer_id "get_alert"
    let evidence = alert_evidence auth alert
    record_access auth "get_alert" (("alert_id", str alert_id) ∷ []) (evidence ∷ [])
    pure evidence

  abbrev pub customer_content : Customer → Dict Json
  customer_content c =
      ("customer_id", str c.customer_id)
      ∷ ("customer_type", str c.customer_type)
      ∷ ("display_token", str c.display_token)
      ∷ ("country_code", str c.country_code)
      ∷ ("occupation_or_sector", str c.occupation_or_sector)
      ∷ ("expected_monthly_turnover", str (x.decimal_text c.expected_monthly_turnover))
      ∷ ("risk_level", str c.risk_level)
      ∷ []

  abbrev pub customer_evidence : CaseAuthorization → String → Customer → EvidenceItem
  customer_evidence auth customer_id c =
      evidence_from_model x.digest (str_append "CUSTOMER-" customer_id) "customer_profile"
        customer_id auth.case_id customer_id (customer_content c) "synthetic_bank.customer_profile"

  abbrev pub customer_argument : String → Dict Json
  customer_argument customer_id = ("customer_id", str customer_id) ∷ []

  unfoldable pub get_customer_profile : CaseAuthorization → String → Action Tools EvidenceItem
  unfolding authorize record_access
  get_customer_profile auth customer_id = do
    authorize auth customer_id "get_customer_profile"
    customer ← on_repository (Repository.get_customer customer_id)
    let evidence = customer_evidence auth customer_id customer
    record_access auth "get_customer_profile" (customer_argument customer_id) (evidence ∷ [])
    pure evidence

  abbrev pub kyc_evidence : CaseAuthorization → String → Kyc → EvidenceItem
  kyc_evidence auth customer_id k =
      evidence_from_model x.digest (str_append "KYC-" k.kyc_id) "kyc_profile" k.kyc_id auth.case_id
        customer_id (x.kyc_json k) "synthetic_bank.kyc"

  unfoldable pub get_kyc_profile : CaseAuthorization → String → Action Tools EvidenceItem
  unfolding authorize record_access
  get_kyc_profile auth customer_id = do
    authorize auth customer_id "get_kyc_profile"
    kyc ← on_repository (Repository.get_kyc customer_id)
    let evidence = kyc_evidence auth customer_id kyc
    record_access auth "get_kyc_profile" (customer_argument customer_id) (evidence ∷ [])
    pure evidence

  abbrev pub transaction_evidence : CaseAuthorization → String → Transaction → EvidenceItem
  transaction_evidence auth customer_id t =
      evidence_from_model x.digest t.transaction_id "transaction" t.transaction_id auth.case_id
        customer_id (x.transaction_json t) "synthetic_bank.transactions"

  unfoldable pub get_transactions :
      CaseAuthorization → String → ℕ → Action Tools (List EvidenceItem)
  unfolding authorize record_access
  get_transactions auth customer_id limit = do
    authorize auth customer_id "get_transactions"
    guard (leb 1 limit && leb limit 500) limit_out_of_range
    transactions ← on_repository (Repository.get_transactions customer_id)
    let evidence = map (transaction_evidence auth customer_id) (take_last limit transactions)
    record_access auth "get_transactions"
        (("customer_id", str customer_id) ∷ ("limit", num limit) ∷ []) evidence
    pure evidence

  abbrev pub refusal : CaseAuthorization → String → Dict Json → ToolExecution
  refusal auth tool_name arguments = record {
    case_id = auth.case_id;
    tool_name = tool_name;
    sanitized_arguments = arguments;
    authorized = false;
    evidence_ids = [];
    error_code = some "PROHIBITED_ACTION";
  }

  unfoldable pub invoke_prohibited : CaseAuthorization → String → Dict Json → Action Tools Unit
  invoke_prohibited auth tool_name arguments =
      if not (contains prohibited tool_name) then raise unknown_key else do
        let execution = refusal auth tool_name arguments
        executed execution
        audited "prohibited_tool_denied" auth execution
        raise tool_not_authorized
