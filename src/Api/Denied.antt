-- ===== src/Api/Denied.antt =====
-- src/amlguard/api/app.py: requests on a case that the actor may not make: they change nothing and disclose nothing.
use mathlib.Core.List.{append-nil}
use amlguard_eu_ai_agent.Prelude.{
  sym, ℕ, String, Bool, true, false, ◌≡◌, refl, some, List, [], ◌∷◌, ◌++◌, Option-cases, Bool-cases,
  inl, inr, ◌⊎◌, if◌then◌else◌, sym,
}
use amlguard_eu_ai_agent.Prelude.Dict.{lookup, is_none}
use amlguard_eu_ai_agent.Domain.{CaseData}
use amlguard_eu_ai_agent.Auth.{Actor, CaseAction, authorize_case, has_required_role}
use amlguard_eu_ai_agent.Governance.AuditChain.{AuditEvent}
use amlguard_eu_ai_agent.Tools.Repository
use amlguard_eu_ai_agent.Graph.State.{Services}
use amlguard_eu_ai_agent.Graph.Sync.{cases_of}
use amlguard_eu_ai_agent.Graph.Engine.{Runtime}
use amlguard_eu_ai_agent.Api.Http.{App, Reply, refused, Route, reply, ◌>>=◌, ◌>>◌}
use amlguard_eu_ai_agent.Api.Access.{
  allow, accept, case_for_action, record_denial, authorized, denial_payload,
}
use amlguard_eu_ai_agent.Api.Routes.{
  get_investigation, resume_investigation, get_evidence, claim, human_review,
}
use amlguard_eu_ai_agent.Api.Pages.{
  ui_get_investigation, ui_get_investigation_page, ui_reset_investigation, ui_resume_investigation,
  ui_claim_review, ui_human_review,
}
use amlguard_eu_ai_agent.Api.Requests.{
  reading, reading_evidence, claiming, viewing, viewing_page, resetting, claiming_form, resuming,
  deciding, resuming_form, deciding_form, CaseRequest, handle, roles_of, action_of, is_well_formed,
  resuming, deciding, resuming_form, deciding_form,
}

-- The answer to a request that is not permitted: it depends on the request and on the actor's roles.
abbrev pub refusal : CaseRequest → Actor → ℕ
refusal q actor =
    if has_required_role (roles_of q) actor then (if is_well_formed q then 404 else 422) else 403

-- Nothing happened, but that a denied access may have been audited.
pub record Unharmed (case_id : String) (actor : Actor) (app app' : App) : Type 0 where
  pub cases : cases_of app'.engine.world ≡ cases_of app.engine.world
  pub threads : app'.engine.threads ≡ app.engine.threads
  pub jobs : app'.jobs ≡ app.jobs
  pub spawned : app'.spawned ≡ app.spawned
  pub idempotency : app'.idempotency ≡ app.idempotency
  pub denials : List AuditEvent
  pub history :
      app'.engine.world.tools.repository.audit_events
      ≡ app.engine.world.tools.repository.audit_events ++ denials
  pub recorded :
      (denials ≡ [])
      ⊎ ((e : AuditEvent) × (denials ≡ e ∷ [])
          × (e.event_type ≡ "case_authorization_denied")
          × (e.actor_id ≡ actor.actor_id)
          × (e.case_id ≡ case_id))

-- The case is unknown, or the actor is denied the action on it.
abbrev pub Forbidden : String → Actor → CaseAction → App → Type 0
Forbidden k actor action app =
    (c : CaseData)
    → lookup k (cases_of app.engine.world) ≡ some c
    → is_none (authorize_case actor c action) ≡ false

untouched : (k : String) (actor : Actor) (app : App) → Unharmed k actor app app
untouched k actor app = record {
  cases = refl;
  threads = refl;
  jobs = refl;
  spawned = refl;
  idempotency = refl;
  denials = [];
  history = sym (append-nil app.engine.world.tools.repository.audit_events);
  recorded = inl refl;
}

-- An answer with this status, that leaves the application unharmed.
abbrev Refuses : {A : Type 0} → ℕ → String → Actor → App → Reply A × App → Type 0
Refuses {A} n k actor app r = (r.0 ≡ refused n) × Unharmed k actor app r.1

module _ (s : Services) (k : String) (actor : Actor) (action : CaseAction) (app : App)
    (denied : Forbidden k actor action app) where
  case_for_action-Refuses :
      {A : Type 0} (f : CaseData → Route A)
      → Refuses 404 k actor app ((case_for_action s k actor action >>= f) app)
  unfolding case_for_action authorized record_denial Repository.get_case Repository.audit
  case_for_action-Refuses f = elim (Option-cases (lookup k (cases_of app.engine.world))) [
    | inl e ↦ rw e (refl, untouched k actor app)
    | inr (c, e) ↦ rw e (
        rw (denied c e) (
          refl,
          record {
            cases = refl;
            threads = refl;
            jobs = refl;
            spawned = refl;
            idempotency = refl;
            denials =
                Repository.next_event s.external.digest "case_authorization_denied" actor.actor_id k
                  (denial_payload actor action) app.engine.world.tools.repository.audit_events
                ∷ [];
            history = refl;
            recorded = inr (_, refl, refl, refl, refl);
          },
        ))
  ]

  -- Behind the check of the roles and the validation of the request.
  gated :
      {A : Type 0} (roles : List String) (valid : Bool) (f : CaseData → Route A)
      → Refuses
          (if has_required_role roles actor then (if valid then 404 else 422) else 403)
          k
          actor
          app
          ((allow roles actor >> (accept valid >> (case_for_action s k actor action >>= f))) app)
  unfolding allow
  gated roles true f = elim (Bool-cases (has_required_role roles actor)) [
    | inl may ↦ rw may (case_for_action-Refuses f)
    | inr not_may ↦ rw not_may (refl, untouched k actor app)
  ]
  gated roles false f = elim (Bool-cases (has_required_role roles actor)) [
    | inl may ↦ rw may (refl, untouched k actor app)
    | inr not_may ↦ rw not_may (refl, untouched k actor app)
  ]

-- The answer to a whole route, where its last step only forgets what it answers with.
forgets :
    {A : Type 0} (n : ℕ) (k : String) (actor : Actor) (app : App) (m : Route A)
    → Refuses n k actor app (m app)
    → Refuses n k actor app ((m >> reply tt) app)
forgets n k actor app m (r, u) = rw r (refl, u)

module _ (s : Services) (x : Runtime) where
  -- Every request passes the roles, the validation and the access to the case before anything else.
  shape :
      (q : CaseRequest) (k : String) (a : Actor)
      → (A : Type 0) × (f : CaseData → Route A) × (handle s x q k a ≡ (
          allow (roles_of q) a
          >> (accept (is_well_formed q) >> (case_for_action s k a (action_of q) >>= f))
          >> reply tt))
  unfolding handle get_investigation get_evidence resume_investigation claim human_review
      ui_get_investigation ui_get_investigation_page ui_reset_investigation ui_resume_investigation
      ui_claim_review ui_human_review
  shape reading k a = (_, _, refl)
  shape reading_evidence k a = (_, _, refl)
  shape claiming k a = (_, _, refl)
  shape viewing k a = (_, _, refl)
  shape viewing_page k a = (_, _, refl)
  shape resetting k a = (_, _, refl)
  shape claiming_form k a = (_, _, refl)
  shape (resuming body key) k a = (_, _, refl)
  shape (deciding body) k a = (_, _, refl)
  shape (resuming_form loads j i) k a = (_, _, refl)
  shape (deciding_form v t r) k a = (_, _, refl)

  -- A request on a case that is unknown, or on which the actor is denied the action, is answered
  -- with a status that depends on the request and on the actor's roles only: 403 without a role
  -- for it, 422 where it is malformed, else 404, for an unknown case as for a denied one. The cases,
  -- the threads, the jobs, the queued work and the cached responses stay as they were; at most one
  -- audit event is added, which records the denied access of this actor to this case.
  pub handle_refuses :
      (q : CaseRequest) (k : String) (actor : Actor) (app : App)
      → Forbidden k actor (action_of q) app
      → ((handle s x q k actor app).0 ≡ refused (refusal q actor))
        × Unharmed k actor app (handle s x q k actor app).1
  handle_refuses q k a app f =
      let (A, g, e) = shape q k a in
      rw e (
        forgets _ k a app
          (allow (roles_of q) a
            >> (accept (is_well_formed q) >> (case_for_action s k a (action_of q) >>= g)))
          (gated s k a (action_of q) app f (roles_of q) (is_well_formed q) g))
