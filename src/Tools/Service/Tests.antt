-- ===== src/Tools/Service/Tests.antt =====
-- The tools on the sample case.
use amlguard_eu_ai_agent.Prelude.{◌≡◌, [], ◌∷◌, ok, refl, List, ◌≤◌, map}
use amlguard_eu_ai_agent.Prelude.Lists.{All, length}
use amlguard_eu_ai_agent.Prelude.Members.{Mem}
use amlguard_eu_ai_agent.Simulation.Models.{Transaction, Alert}
use amlguard_eu_ai_agent.Samples.{sample_external, sample_authorization, sample_tools, sample_bank}
use amlguard_eu_ai_agent.Tools.Repository.Soundness.{new_repository-IsSound}
use amlguard_eu_ai_agent.Tools.Repository
use amlguard_eu_ai_agent.Domain.{EvidenceItem}
use amlguard_eu_ai_agent.Tools.Repository.{new_repository}
use amlguard_eu_ai_agent.Tools.Service.{
  Tools, get_alert, get_customer_profile, get_kyc_profile, get_transactions, transaction_evidence,
  alert_evidence,
}
use amlguard_eu_ai_agent.Tools.Service.Prohibited.{
  IsGuarded, Call, alert_call, prohibited_call, call_all, call_all-IsGuarded,
}
use amlguard_eu_ai_agent.Tools.Service.Scope.{
  Denied, cross_scope_refused, get_transactions-InScope, get_alert-InScope,
}

abbrev new_tools : Tools
new_tools = record { repository = new_repository sample_bank; executions = [] }

new_tools-IsGuarded : IsGuarded sample_external new_tools
new_tools-IsGuarded = record {
  honest = refl;
  sound = new_repository-IsSound sample_external.digest sample_bank;
}

abbrev calls : List (Call sample_external)
calls =
    alert_call sample_authorization "A1" ∷ prohibited_call sample_authorization "submit_str" [] ∷ []

call_all-IsGuarded_example : IsGuarded sample_external (call_all sample_external calls new_tools)
call_all-IsGuarded_example = call_all-IsGuarded sample_external calls new_tools new_tools-IsGuarded

cross_scope_refused_example :
    Denied sample_external sample_authorization "K2" "get_customer_profile" sample_tools
      (get_customer_profile sample_external sample_authorization "K2" sample_tools)
    × Denied sample_external sample_authorization "K2" "get_kyc_profile" sample_tools
        (get_kyc_profile sample_external sample_authorization "K2" sample_tools)
    × Denied sample_external sample_authorization "K2" "get_transactions" sample_tools
        (get_transactions sample_external sample_authorization "K2" 10 sample_tools)
cross_scope_refused_example =
    cross_scope_refused sample_external sample_authorization "K2" 10 sample_tools refl

got_transactions :
    (es : List EvidenceItem) × (t : Tools) × (get_transactions sample_external sample_authorization
        "K1" 10 sample_tools
      ≡ (ok es, t))
unfolding get_transactions Repository.get_transactions Repository.audit
got_transactions = (_, _, refl)

get_transactions-InScope_example :
    (ts : List Transaction) × ("K1" ≡ sample_authorization.customer_id)
    × (got_transactions.0 ≡ map (transaction_evidence sample_external sample_authorization "K1") ts)
    × All (λ s. Mem sample_bank.transactions s × (s.customer_id ≡ "K1")) ts
    × (length got_transactions.0 ≤ 10)
    × (1 ≤ 10)
    × (10 ≤ 500)
get_transactions-InScope_example =
    get_transactions-InScope sample_external sample_authorization "K1" 10 sample_tools
      got_transactions.1 got_transactions.0 got_transactions.2

got_alert :
    (e : EvidenceItem) × (t : Tools) × (get_alert sample_external sample_authorization "A1"
        sample_tools
      ≡ (ok e, t))
unfolding get_alert Repository.get_alert Repository.audit
got_alert = (_, _, refl)

get_alert-InScope_example :
    (a : Alert) × (a.alert_id ≡ "A1")
    × (a.customer_id ≡ "K1")
    × (got_alert.0 ≡ alert_evidence sample_external sample_authorization a)
get_alert-InScope_example =
    get_alert-InScope sample_external sample_authorization "A1" sample_tools got_alert.1 got_alert.0
      got_alert.2
