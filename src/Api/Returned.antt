-- ===== src/Api/Returned.antt =====
-- What is known of the application when a route of src/amlguard/api/app.py answers with a value.
use amlguard_eu_ai_agent.Prelude.{
  subst, ◌∙◌, String, true, ◌≡◌, refl, some, List, Option-cases, Bool-cases, inl, inr, Result, ok,
  err, Exception, ℕ,
}
use amlguard_eu_ai_agent.Prelude.Dict.{lookup, is_none}
use amlguard_eu_ai_agent.Domain.{CaseData}
use amlguard_eu_ai_agent.Auth.{Actor, CaseAction, authorize_case, has_required_role}
use amlguard_eu_ai_agent.Tools.Repository
use amlguard_eu_ai_agent.Graph.State.{Services}
use amlguard_eu_ai_agent.Graph.Sync.{cases_of}
use amlguard_eu_ai_agent.Api.Http.{App, Reply, Route, replied, refused, go_on, ◌>>=◌, ◌>>◌, answer}
use amlguard_eu_ai_agent.Api.Access.{allow, case_for_action, authorized, record_denial}

module _ {A B : Type 0} where
  go_on-replied :
      (r : Reply A) (f : A → Route B) (app : App) (b : B)
      → (go_on r f app).0 ≡ replied b
      → (a : A) × (r ≡ replied a) × (go_on r f app ≡ f a app)
  go_on-replied (replied a) f app b h = (a, refl, refl)
  go_on-replied (refused n) f app b h = absurd (cc h)

  -- A step was answered with a value, and the rest went on from there.
  pub step_returned :
      (m : Route A) (f : A → Route B) (app : App) (b : B)
      → ((m >>= f) app).0 ≡ replied b
      → (a : A) × ((m app).0 ≡ replied a) × ((m >>= f) app ≡ f a (m app).1)
  step_returned m f app b h = let (r, app') = m app in go_on-replied r f app' b h

pub answer_returned :
    {A : Type 0} (status : Exception → ℕ) (r : Result A) (a : A)
    → answer status r ≡ replied a
    → r ≡ ok a
answer_returned status (ok b) a h = cc h
answer_returned status (err e) a h = absurd (cc h)

pub allow_keeps :
    (roles : List String) (actor : Actor) (app : App) → (allow roles actor app).1 ≡ app
unfolding allow
allow_keeps roles actor app = elim (Bool-cases (has_required_role roles actor)) [
  | inl may ↦ rw may refl
  | inr may ↦ rw may refl
]

pub record Admitted (s : Services) (k : String) (actor : Actor) (action : CaseAction) (app : App)
    (c : CaseData) : Type 0 where
  pub found : lookup k (cases_of app.engine.world) ≡ some c
  pub permitted : is_none (authorize_case actor c action) ≡ true
  pub kept : (case_for_action s k actor action app).1 ≡ app

pub case_for_action_returned :
    (s : Services) (k : String) (actor : Actor) (action : CaseAction) (app : App) (c : CaseData)
    → (case_for_action s k actor action app).0 ≡ replied c
    → Admitted s k actor action app c
unfolding case_for_action authorized record_denial Repository.get_case Repository.audit
case_for_action_returned s k actor action app c h =
    elim (Option-cases (lookup k (cases_of app.engine.world))) [
      | inl e ↦
          let no_case : (case_for_action s k actor action app).0 ≡ refused 404 = rw e refl in
          absurd (cc (h, no_case))
      | inr (c', e) ↦ elim (Bool-cases (is_none (authorize_case actor c' action))) [
        | inl may ↦
            let granted : case_for_action s k actor action app ≡ (replied c', app) =
              rw e (rw may refl) in
            let same : c' ≡ c = cc (h, granted) in
            record { found = cc (e, same); permitted = cc (may, same); kept = rw e (rw may refl) }
        | inr may ↦
            let denied : (case_for_action s k actor action app).0 ≡ refused 404 =
              rw e (rw may refl) in
            absurd (cc (h, denied))
      ]
    ]

-- A route that checks the roles and the access to the case, and goes on.
pub enters :
    {B : Type 0} (s : Services) (k : String) (actor : Actor) (roles : List String)
    (action : CaseAction) (rest : CaseData → Route B) (app : App) (b : B)
    → let route = allow roles actor >> (case_for_action s k actor action >>= rest) in
      (route app).0 ≡ replied b
      → (c : CaseData) × Admitted s k actor action app c × (route app ≡ rest c app)
enters s k actor roles action rest app b h =
    let enter = case_for_action s k actor action in
    let route = allow roles actor >> (enter >>= rest) in
    let (_, _, e) = step_returned (allow roles actor) (λ _. enter >>= rest) app b h in
    let e' : route app ≡ (enter >>= rest) app =
      subst (λ y. route app ≡ (enter >>= rest) y) (allow_keeps roles actor app) e in
    let (c, admitted, f) = step_returned enter rest app b (rw⁻¹ e' h) in
    let a = case_for_action_returned s k actor action app c admitted in
    (c, a, e' ∙ subst (λ y. (enter >>= rest) app ≡ rest c y) a.kept f)
