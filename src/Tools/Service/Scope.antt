-- ===== src/Tools/Service/Scope.antt =====
-- What the tools return stays in the scope of the case, and what they refuse leaves a trace.
use amlguard_eu_ai_agent.Prelude.{
  Result, some, ◌++◌, refl, subst, sym, String, false, ◌≡◌, List, [], ◌∷◌, ℕ, ◌≤◌, ok, err,
  tool_not_authorized, ◌==◌, eq_iff, map, arith, ◌∙◌, Result-cases, inr, ap, inl, ◌-◌,
}
use amlguard_eu_ai_agent.Prelude.Lists.{
  All, length, select, take_last, length-take_last-le, All-select, All-drop, length-map,
}
use amlguard_eu_ai_agent.Prelude.Members.{Mem, All-both, All-kept, All-members}
use amlguard_eu_ai_agent.Domain.{EvidenceItem, ToolExecution, str}
use amlguard_eu_ai_agent.Governance.AuditChain.{AuditEvent}
use amlguard_eu_ai_agent.Tools.Repository
use amlguard_eu_ai_agent.Tools.Service.{
  External, CaseAuthorization, Tools, get_alert, get_customer_profile, get_kyc_profile,
  get_transactions, denial, audited, executed, Transaction, Alert, transaction_evidence,
  alert_evidence,
}

module _ (x : External) (auth : CaseAuthorization) where
  -- A denied call of the tool for the customer: it raises; the record of executions has one
  -- execution more, which is not authorized; and the audit has one event more.
  pub record Denied (customer tool : String) {A : Type 0} (t : Tools) (answer : Result A × Tools)
      : Type 0 where
    pub raises : answer.0 ≡ err tool_not_authorized
    pub execution : ToolExecution
    pub recorded : answer.1.executions ≡ t.executions ++ execution ∷ []
    pub refused : execution.authorized ≡ false
    pub of_case : execution.case_id ≡ auth.case_id
    pub of_tool : execution.tool_name ≡ tool
    pub about : execution.sanitized_arguments ≡ ("customer_id", str customer) ∷ []
    pub unread : execution.evidence_ids ≡ []
    pub code : execution.error_code ≡ some "CROSS_SCOPE_ACCESS"
    pub event : AuditEvent
    pub audited : answer.1.repository.audit_events ≡ t.repository.audit_events ++ event ∷ []
    pub denial : event.event_type ≡ "tool_authorization_denied"
    pub by : event.actor_id ≡ auth.actor_id
    pub in_case : event.case_id ≡ auth.case_id
    pub bank_kept : answer.1.repository.bank ≡ t.repository.bank
    pub cases_kept : answer.1.repository.cases ≡ t.repository.cases

  -- The state after a refusal.
  abbrev refused_by : String → String → Tools → Tools
  refused_by customer tool t =
      let e = denial x auth customer tool in
      (audited x "tool_authorization_denied" auth e (executed e t).1).1

  refused_by-Denied :
      (id tool : String) (t : Tools) {A : Type 0} (answer : Result A × Tools)
      → answer ≡ (err tool_not_authorized, refused_by id tool t)
      → Denied id tool t answer
  unfolding Repository.audit
  refused_by-Denied id tool t answer same = subst (Denied id tool t) (sym same) (record {
    raises = refl;
    execution = denial x auth id tool;
    recorded = refl;
    refused = refl;
    of_case = refl;
    of_tool = refl;
    about = refl;
    unread = refl;
    code = refl;
    event = _;
    audited = refl;
    denial = refl;
    by = refl;
    in_case = refl;
    bank_kept = refl;
    cases_kept = refl;
  })

  -- A read tool that is asked for a customer outside the case raises the authorization error; it
  -- records one execution of the tool that is not authorized and returned no evidence, and audits
  -- one denial by the actor; the bank and the cases stay as they are.
  pub cross_scope_refused :
      (id : String) (limit : ℕ) (t : Tools)
      → (id == auth.customer_id) ≡ false
      → Denied id "get_customer_profile" t (get_customer_profile x auth id t)
        × Denied id "get_kyc_profile" t (get_kyc_profile x auth id t)
        × Denied id "get_transactions" t (get_transactions x auth id limit t)
  unfolding get_customer_profile get_kyc_profile get_transactions Repository.audit
  cross_scope_refused id limit t h = (
    refused_by-Denied id "get_customer_profile" t _ (rw h refl),
    refused_by-Denied id "get_kyc_profile" t _ (rw h refl),
    refused_by-Denied id "get_transactions" t _ (rw h refl),
  )

  transactions_of :
      (id : String) (ts : List Transaction)
      → id ≡ auth.customer_id
      → All
          (λ t. Mem ts t × (t.customer_id ≡ auth.customer_id))
          (select (λ t. t.customer_id == id) ts)
  transactions_of id ts own =
      All-both (Mem ts) (λ t. t.customer_id ≡ auth.customer_id)
        (select (λ t. t.customer_id == id) ts)
        (All-kept (Mem ts) (λ t. t.customer_id == id) ts (All-members ts))
        (All-select (λ t. t.customer_id ≡ auth.customer_id) (λ t. t.customer_id == id) ts
          (λ t e. (eq_iff t.customer_id id).0 e ∙ own))

  get_transactions_result :
      (id : String) (limit : ℕ) (t t' : Tools) (es : List EvidenceItem)
      → get_transactions x auth id limit t ≡ (ok es, t')
      → (id ≡ auth.customer_id)
        × (1 ≤ limit)
        × (limit ≤ 500)
        × (es
            ≡ map (transaction_evidence x auth id) (
                take_last limit (select (λ t. t.customer_id == id) t.repository.bank.transactions)))
  unfolding get_transactions Repository.get_transactions Repository.audit
  get_transactions_result id limit t t' es h = ground (arith, eq_iff id auth.customer_id)

  -- `get_transactions` returns only where the customer asked for is the one of the case and the
  -- limit is between 1 and 500; what it returns is evidence, labelled with the case, of transactions
  -- of the bank that all belong to this customer, and never more than the limit.
  pub get_transactions-InScope :
      (id : String) (limit : ℕ) (t t' : Tools) (es : List EvidenceItem)
      → get_transactions x auth id limit t ≡ (ok es, t')
      → (ts : List Transaction) × (id ≡ auth.customer_id)
        × (es ≡ map (transaction_evidence x auth auth.customer_id) ts)
        × All (λ s. Mem t.repository.bank.transactions s × (s.customer_id ≡ auth.customer_id)) ts
        × (length es ≤ limit)
        × (1 ≤ limit)
        × (limit ≤ 500)
  get_transactions-InScope id limit t t' es h =
      let all = select (λ (s : Transaction). s.customer_id == id) t.repository.bank.transactions in
      let (own, low, high, same) = get_transactions_result id limit t t' es h in
      (
        take_last limit all,
        own,
        same ∙ ap (λ (c : String). map (transaction_evidence x auth c) (take_last limit all)) own,
        All-drop _ (length all - limit) all (transactions_of id t.repository.bank.transactions own),
        rw same (
            omega (
              arith,
              length-map {0, 0} (transaction_evidence x auth id) (take_last limit all),
              length-take_last-le {0} limit all,
            )),
        low,
        high,
      )

  one-found :
      (id : String) (xs : List Alert) (a : Alert)
      → Repository.one (λ b. b.alert_id) id xs ≡ ok a
      → a.alert_id ≡ id
  unfolding Repository.one
  one-found id [] a h = cc
  one-found id (b ∷ bs) a h = ground (arith, eq_iff b.alert_id id, one-found id bs a)

  -- `get_alert` returns only evidence of an alert with the identifier asked for that is about the
  -- customer of the case.
  pub get_alert-InScope :
      (id : String) (t t' : Tools) (e : EvidenceItem)
      → get_alert x auth id t ≡ (ok e, t')
      → (a : Alert) × (a.alert_id ≡ id)
        × (a.customer_id ≡ auth.customer_id)
        × (e ≡ alert_evidence x auth a)
  unfolding get_alert Repository.get_alert Repository.audit
  get_alert-InScope id t t' e h =
      elim (Result-cases (Repository.one (λ (b : Alert). b.alert_id) id t.repository.bank.alerts)) [
        | inr (x', no_alert) ↦ absurd (ground (arith, no_alert))
        | inl (a, got) ↦ (
          a,
          one-found id t.repository.bank.alerts a got,
          ground (arith, got, eq_iff a.customer_id auth.customer_id),
          ground (arith, got, eq_iff a.customer_id auth.customer_id),
        )
      ]
