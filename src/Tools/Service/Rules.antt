-- ===== src/Tools/Service/Rules.antt =====
-- An invariant that every recorded execution and every audit event keeps is kept by every tool.
use amlguard_eu_ai_agent.Prelude.{
  ℕ, String, Bool, true, false, ◌≡◌, refl, List, [], ◌∷◌, ◌&&◌, not, Result, ok, err, pure, raise,
  tool_not_authorized, unknown_key, Exception, guard, ◌>>◌, map, leb, limit_out_of_range, ◌==◌,
}
use amlguard_eu_ai_agent.Prelude.Dict.{Dict}
use amlguard_eu_ai_agent.Prelude.Keeps.{Keeps, Keeps-if, Keeps-bind, Keeps-lift}
use amlguard_eu_ai_agent.Prelude.Lists.{take_last, select}
use amlguard_eu_ai_agent.Prelude.Sets.{contains}
use amlguard_eu_ai_agent.Domain.{Json, ToolExecution, EvidenceItem, str, num}
use amlguard_eu_ai_agent.Tools.Repository
use amlguard_eu_ai_agent.Tools.Repository.{Repository}
use amlguard_eu_ai_agent.Tools.Service.{
  External, CaseAuthorization, Tools, prohibited, on_repository, executed, audited, authorize,
  record_access, get_alert, get_customer_profile, get_kyc_profile, get_transactions,
  invoke_prohibited, require_customer, refusal, denial, access, customer_argument,
  transaction_evidence, customer_evidence, alert_evidence, kyc_evidence,
}

-- An authorized execution of a prohibited tool.
abbrev pub is_violation : ToolExecution → Bool
is_violation e = e.authorized && contains prohibited e.tool_name

module _ (x : External) (P : Tools → Type 0)
    (executed-Keeps : (e : ToolExecution) → is_violation e ≡ false → Keeps P (executed e))
    (audited-Keeps : (event : String) (auth : CaseAuthorization) (e : ToolExecution)
      → Keeps P (audited x event auth e)) where
  refused-Keeps :
      (auth : CaseAuthorization) (e : ToolExecution) (event : String)
      → is_violation e ≡ false
      → Keeps P (executed e >> (audited x event auth e >> raise {A = Unit} tool_not_authorized))
  refused-Keeps auth e event h =
      Keeps-bind (executed e) (λ _. audited x event auth e >> raise {A = Unit} tool_not_authorized)
        (executed-Keeps e h)
        (λ _.
          Keeps-bind (audited x event auth e) (λ _. raise {A = Unit} tool_not_authorized)
            (audited-Keeps event auth e) (λ _. Keeps-lift (err tool_not_authorized)))

  reading-Keeps : {A : Type 0} (f : Repository → Result A) → Keeps P (on_repository (λ r. (f r, r)))
  reading-Keeps f = record { at = λ t h. h }

  authorize-Keeps :
      (auth : CaseAuthorization) (customer tool : String) → Keeps P (authorize x auth customer tool)
  unfolding authorize
  authorize-Keeps auth customer tool =
      Keeps-if (require_customer auth customer) _ _ (Keeps-lift (ok tt))
        (refused-Keeps auth (denial x auth customer tool) "tool_authorization_denied" refl)

  record_access-Keeps :
      (auth : CaseAuthorization) (tool : String) (arguments : Dict Json) (es : List EvidenceItem)
      → contains prohibited tool ≡ false
      → Keeps P (record_access x auth tool arguments es)
  unfolding record_access
  record_access-Keeps auth tool arguments es allowed =
      let e = access x auth tool arguments es in
      Keeps-bind (executed e) (λ _. audited x "tool_access" auth e) (executed-Keeps e allowed)
        (λ _. audited-Keeps "tool_access" auth e)

  returning-Keeps :
      {A : Type 0} (auth : CaseAuthorization) (tool : String) (arguments : Dict Json)
      (es : List EvidenceItem) (v : A)
      → contains prohibited tool ≡ false
      → Keeps P (record_access x auth tool arguments es >> pure v)
  returning-Keeps auth tool arguments es v allowed =
      Keeps-bind (record_access x auth tool arguments es) (λ _. pure v)
        (record_access-Keeps auth tool arguments es allowed) (λ _. Keeps-lift (ok v))

  pub get_alert-Keeps : (auth : CaseAuthorization) (id : String) → Keeps P (get_alert x auth id)
  unfolding get_alert Repository.get_alert
  get_alert-Keeps auth id = Keeps-bind _ _ (reading-Keeps _) (λ a.
      Keeps-bind _ _ (authorize-Keeps auth a.customer_id "get_alert") (λ _.
        returning-Keeps auth "get_alert" (("alert_id", str id) ∷ []) (alert_evidence x auth a ∷ [])
          (alert_evidence x auth a) refl))

  pub get_customer_profile-Keeps :
      (auth : CaseAuthorization) (id : String) → Keeps P (get_customer_profile x auth id)
  unfolding get_customer_profile Repository.get_customer
  get_customer_profile-Keeps auth id =
      Keeps-bind _ _ (authorize-Keeps auth id "get_customer_profile") (λ _.
        Keeps-bind _ _ (reading-Keeps _) (λ c.
          returning-Keeps auth "get_customer_profile" (customer_argument x id)
            (customer_evidence x auth id c ∷ []) (customer_evidence x auth id c) refl))

  pub get_kyc_profile-Keeps :
      (auth : CaseAuthorization) (id : String) → Keeps P (get_kyc_profile x auth id)
  unfolding get_kyc_profile Repository.get_kyc
  get_kyc_profile-Keeps auth id = Keeps-bind _ _ (authorize-Keeps auth id "get_kyc_profile") (λ _.
      Keeps-bind _ _ (reading-Keeps _) (λ c.
        returning-Keeps auth "get_kyc_profile" (customer_argument x id)
          (kyc_evidence x auth id c ∷ []) (kyc_evidence x auth id c) refl))

  guard-Keeps : (b : Bool) (e : Exception) → Keeps P (guard b e)
  guard-Keeps true e = record { at = λ t h. h }
  guard-Keeps false e = record { at = λ t h. h }

  pub get_transactions-Keeps :
      (auth : CaseAuthorization) (id : String) (limit : ℕ)
      → Keeps P (get_transactions x auth id limit)
  unfolding get_transactions Repository.get_transactions
  get_transactions-Keeps auth id limit =
      Keeps-bind _ _ (authorize-Keeps auth id "get_transactions") (λ _.
        Keeps-bind _ _ (guard-Keeps (leb 1 limit && leb limit 500) limit_out_of_range) (λ _.
          Keeps-bind _ _
            (reading-Keeps (λ r. ok (select (λ t. t.customer_id == id) r.bank.transactions)))
            (λ ts.
              let es = map (transaction_evidence x auth id) (take_last limit ts) in
              returning-Keeps auth "get_transactions"
                (("customer_id", str id) ∷ ("limit", num limit) ∷ []) es es refl)))

  pub invoke_prohibited-Keeps :
      (auth : CaseAuthorization) (tool : String) (arguments : Dict Json)
      → Keeps P (invoke_prohibited x auth tool arguments)
  unfolding invoke_prohibited
  invoke_prohibited-Keeps auth tool arguments =
      Keeps-if (not (contains prohibited tool)) _ _ (Keeps-lift (err unknown_key))
        (refused-Keeps auth (refusal x auth tool arguments) "prohibited_tool_denied" refl)
