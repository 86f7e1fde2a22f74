-- ===== src/Tools/Repository.antt =====
-- src/amlguard/tools/repository.py: `InMemoryInvestigationRepository`. Each method is an action on
-- the repository; the identifiers that `uuid4()` draws are arguments of `create_case`.
pub mod Soundness
pub mod Chain
pub mod Cases
pub mod Growth
mod Tests
use mathlib.Core.List.{reverse}
use amlguard_eu_ai_agent.Prelude.{
  ℕ, String, Bool, true, false, Option, none, some, List, [], ◌∷◌, ◌++◌, ◌+◌, ◌&&◌, not, ◌==◌,
  Result, ok, err, Action, pure, raise, modify, guard, ◌>>=◌, ◌>>◌, unknown_key,
  alert_assigned_elsewhere, duplicate_review, review_already_assigned, ◌=ℕ◌, if◌then◌else◌,
}
use amlguard_eu_ai_agent.Prelude.Dict.{Dict, lookup, put, remove, values}
use amlguard_eu_ai_agent.Prelude.Lists.{any, select, first, last?, length}
use amlguard_eu_ai_agent.Domain.{
  Json, CaseData, CaseStatus, open_case, Recommendation, HumanReview, same_action,
}
use amlguard_eu_ai_agent.Simulation.Models.{Customer, Kyc, Transaction, Alert, Bank}
use amlguard_eu_ai_agent.Governance.AuditChain.{AuditEvent, genesis_hash, calculate_event_hash}

pub record Repository : Type 0 where
  pub bank : Bank
  pub cases : Dict CaseData
  pub audit_events : List AuditEvent

unfoldable pub new_repository : Bank → Repository
new_repository bank = record { bank = bank; cases = []; audit_events = [] }

-- `_one(items, attribute, value)`
unfoldable pub one : {A : Type 0} → (A → String) → String → List A → Result A
one attribute value [] = err unknown_key
one attribute value (x ∷ xs) =
    let rest = one attribute value xs in if attribute x == value then ok x else rest

found : {A : Type 0} → Option A → Result A
found none = err unknown_key
found (some a) = ok a

unfoldable pub get_case : String → Action Repository CaseData
unfolding lookup found
get_case case_id r = (found (lookup case_id r.cases), r)

abbrev pub with_case : String → CaseData → Repository → Repository
with_case case_id c r = record r { cases = put case_id c r.cases }

unfoldable pub list_cases : Repository → List CaseData
unfolding values
list_cases r = reverse (values r.cases)

unfoldable pub get_alert : String → Action Repository Alert
unfolding one
get_alert alert_id r = (one (λ a. a.alert_id) alert_id r.bank.alerts, r)

unfoldable pub get_customer : String → Action Repository Customer
unfolding one
get_customer customer_id r = (one (λ c. c.customer_id) customer_id r.bank.customers, r)

unfoldable pub get_kyc : String → Action Repository Kyc
unfolding one
get_kyc customer_id r = (one (λ k. k.customer_id) customer_id r.bank.kyc_records, r)

unfoldable pub get_transactions : String → Action Repository (List Transaction)
get_transactions customer_id r =
    (ok (select (λ t. t.customer_id == customer_id) r.bank.transactions), r)

abbrev pub same_alert : String → String → CaseData → Bool
same_alert alert_id tenant_id c = c.alert_id == alert_id && c.tenant_id == tenant_id

abbrev pub new_case : String → String → String → String → String → String → CaseData
new_case case_id run_id alert_id customer_id tenant_id investigator_id = record {
  case_id = case_id;
  run_id = run_id;
  alert_id = alert_id;
  customer_id = customer_id;
  tenant_id = tenant_id;
  assigned_investigator_id = investigator_id;
  assigned_reviewer_id = none;
  status = open_case;
  recommendation = none;
  recommendation_version = 0;
  reviews = [];
}

pub create_new : String → String → String → String → String → Action Repository (CaseData × Bool)
create_new alert_id tenant_id investigator_id case_id run_id = do
  alert ← get_alert alert_id
  let case = new_case case_id run_id alert_id alert.customer_id tenant_id investigator_id
  modify (with_case case_id case)
  pure (case, true)

create_or_find :
    Option CaseData
    → (alert_id tenant_id investigator_id case_id run_id : String)
    → Action Repository (CaseData × Bool)
create_or_find none alert_id tenant_id investigator_id case_id run_id =
    create_new alert_id tenant_id investigator_id case_id run_id
create_or_find (some existing) alert_id tenant_id investigator_id case_id run_id =
    if not (existing.assigned_investigator_id == investigator_id)
    then raise alert_assigned_elsewhere
    else pure (existing, false)

-- The last two arguments are the drawn identifiers of the case and of its run.
unfoldable pub create_case :
    (alert_id tenant_id investigator_id case_id run_id : String)
    → Action Repository (CaseData × Bool)
unfolding get_alert create_new create_or_find
create_case alert_id tenant_id investigator_id case_id run_id r =
    create_or_find (first (same_alert alert_id tenant_id) (values r.cases)) alert_id tenant_id
      investigator_id case_id run_id r

unfoldable pub delete_case : String → Action Repository Unit
unfolding get_case remove
delete_case case_id = do get_case case_id; modify (λ r. record r { cases = remove case_id r.cases })

unfoldable pub save_recommendation : String → Recommendation → Action Repository ℕ
unfolding get_case put
save_recommendation case_id recommendation = do
  case ← get_case case_id
  let version = case.recommendation_version + 1
  modify (
      with_case case_id
        (record case { recommendation_version = version; recommendation = some recommendation }))
  pure version

abbrev pub same_decision : HumanReview → HumanReview → Bool
same_decision review item =
    item.recommendation_version =ℕ review.recommendation_version
    && same_action item.action review.action

unfoldable pub save_review : HumanReview → Action Repository Unit
unfolding get_case put
save_review review = do
  case ← get_case review.case_id
  guard (not (any (same_decision review) case.reviews)) duplicate_review
  modify (with_case review.case_id (record case { reviews = case.reviews ++ review ∷ [] }))

-- `assigned_reviewer_id in (None, reviewer_id)`
abbrev pub is_free_for : String → Option String → Bool
is_free_for reviewer_id none = true
is_free_for reviewer_id (some r) = r == reviewer_id

unfoldable pub assign_reviewer : String → String → Action Repository Unit
unfolding get_case put
assign_reviewer case_id reviewer_id = do
  case ← get_case case_id
  guard (is_free_for reviewer_id case.assigned_reviewer_id) review_already_assigned
  modify (with_case case_id (record case { assigned_reviewer_id = some reviewer_id }))

unfoldable pub set_status : String → CaseStatus → Action Repository Unit
unfolding get_case put
set_status case_id status = do
  case ← get_case case_id
  modify (with_case case_id (record case { status = status }))

abbrev pub hash_or : String → Option AuditEvent → String
hash_or p none = p
hash_or p (some e) = e.event_hash

abbrev pub next_event :
    (Json → String) → String → String → String → Dict Json → List AuditEvent → AuditEvent
next_event digest event_type actor_id case_id payload events =
    let sequence = length events + 1 in
    let previous = hash_or genesis_hash (last? events) in
    record {
      sequence = sequence;
      event_type = event_type;
      actor_id = actor_id;
      case_id = case_id;
      payload = payload;
      previous_hash = previous;
      event_hash =
          calculate_event_hash digest sequence event_type actor_id case_id payload previous;
    }

unfoldable pub audit :
    (Json → String) → String → String → String → Dict Json → Action Repository Unit
audit digest event_type actor_id case_id payload = modify λ r. record r {
  audit_events =
      r.audit_events ++ next_event digest event_type actor_id case_id payload r.audit_events ∷ [];
}
