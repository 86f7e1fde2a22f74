-- ===== src/Tools/Postgres/Creation.antt =====
-- `create_case` and `audit` of `PostgresInvestigationRepository` in
-- src/amlguard/tools/postgres_repository.py. `case_ref` is the reference that a case gets by its
-- identifier, which is drawn; the instant is an argument.
use amlguard_eu_ai_agent.Prelude.{
  ℕ, String, Bool, true, false, Option, none, some, List, [], ◌∷◌, ◌++◌, ◌+◌, ◌&&◌, ◌||◌, not, ◌==◌,
  ◌=ℕ◌, ltb, Result, Action, pure, gets, modify, guard, ◌>>=◌, ◌>>◌, alert_assigned_elsewhere,
  external_failure, if◌then◌else◌,
}
use amlguard_eu_ai_agent.Prelude.Dict.{Dict, lookup, put, is_some, values}
use amlguard_eu_ai_agent.Prelude.Lists.{any, first}
use amlguard_eu_ai_agent.Domain.{Json, CaseData, Recommendation, open_case}
use amlguard_eu_ai_agent.Governance.AuditChain.{AuditEvent, genesis_hash, calculate_event_hash}
use amlguard_eu_ai_agent.Tools.Records.{AlertRow, CaseRow, Store}
use amlguard_eu_ai_agent.Tools.Postgres.{required_row, in_session, case_data, get_case}

module _ {P : Type 0} (validate : P → Result Recommendation) (case_ref : String → String) (now : ℕ)
    (alert_id tenant_id investigator_id case_id : String) where
  abbrev pub new_row : String → AlertRow → CaseRow
  new_row k alert = record {
    case_ref = case_ref case_id;
    alert_id = k;
    customer_id = alert.customer_id;
    tenant_id = tenant_id;
    assigned_investigator_id = investigator_id;
    status = open_case;
    assigned_reviewer_id = none;
    updated_at = now;
  }

  abbrev pub is_for : String → CaseRow → Bool
  is_for k row = row.alert_id == k && row.tenant_id == tenant_id

  -- The primary key, the two unique constraints and the foreign key of the customer.
  abbrev pub is_refused : CaseRow → Store P → Bool
  is_refused row t =
      is_some (lookup case_id t.cases)
      || any (λ r. r.case_ref == row.case_ref) (values t.cases)
      || any (is_for row.alert_id) (values t.cases)
      || not (is_some (lookup row.customer_id t.customers))

  -- The row, its identifier, and whether it is new.
  pub find_or_add :
      String × AlertRow → Option (String × CaseRow) → Action (Store P) (String × CaseRow × Bool)
  find_or_add (k, alert) (some (id, existing)) = do
    guard (existing.assigned_investigator_id == investigator_id) alert_assigned_elsewhere
    pure (id, existing, false)
  find_or_add (k, alert) none = do
    let row = new_row k alert
    refused ← gets (is_refused row)
    guard (not refused) external_failure
    modify (λ t. record t { cases = put case_id row t.cases })
    pure (case_id, row, true)

  unfoldable pub create_case : Action (Store P) (CaseData × Bool)
  unfolding find_or_add get_case
  create_case = do
    found ← in_session do
      alert ← λ t. (required_row (first (λ a. a.1.alert_ref == alert_id) t.alerts), t)
      existing ← gets (λ t. first (λ c. is_for alert.0 c.1) t.cases)
      find_or_add alert existing
    c ← λ t. (case_data validate found.0 t found.1, t)
    pure (c, found.2)

-- ORDER BY sequence DESC LIMIT 1
abbrev pub later : AuditEvent → Option AuditEvent → AuditEvent
later e none = e
later e (some f) = if ltb e.sequence f.sequence then f else e

unfoldable pub last_event : List AuditEvent → Option AuditEvent
last_event [] = none
last_event (e ∷ es) = some (later e (last_event es))

abbrev pub sequence_of : Option AuditEvent → ℕ
sequence_of none = 0
sequence_of (some e) = e.sequence

abbrev pub hash_of : Option AuditEvent → String
hash_of none = genesis_hash
hash_of (some e) = e.event_hash

-- The unique sequence and the unique hash.
abbrev pub is_taken : AuditEvent → List AuditEvent → Bool
is_taken e = any (λ f. f.sequence =ℕ e.sequence || f.event_hash == e.event_hash)

module _ (digest : Json → String) (event_type actor_id case_id : String) (payload : Dict Json) where
  abbrev pub linked : ℕ → String → AuditEvent
  linked sequence previous_hash = record {
    sequence = sequence;
    event_type = event_type;
    actor_id = actor_id;
    case_id = case_id;
    payload = payload;
    previous_hash = previous_hash;
    event_hash =
        calculate_event_hash digest sequence event_type actor_id case_id payload previous_hash;
  }

  abbrev pub event_after : Option AuditEvent → AuditEvent
  event_after previous = linked (sequence_of previous + 1) (hash_of previous)

  unfoldable pub audit : {P : Type 0} → Action (Store P) Unit
  unfolding last_event calculate_event_hash
  audit = in_session do
    previous ← gets (λ t. last_event t.events)
    let event = event_after previous
    taken ← gets (λ t. is_taken event t.events)
    guard (not taken) external_failure
    modify (λ t. record t { events = t.events ++ event ∷ [] })
