-- ===== src/Api/Idempotent.antt =====
-- The idempotency key of `start_investigation` of src/amlguard/api/app.py.
use amlguard_eu_ai_agent.Prelude.{
  String, Bool, true, false, ◌≡◌, refl, none, some, List, [], ◌∷◌, arith, eq_refl, ◌&&◌, Option,
  Result, ok, err, if◌then◌else◌, ap, ◌∙◌,
}
use amlguard_eu_ai_agent.Auth.{Actor, has_required_role}
use amlguard_eu_ai_agent.Graph.State.{Services}
use amlguard_eu_ai_agent.Graph.Engine.{Runtime, InvestigationRun, start}
use amlguard_eu_ai_agent.Api.Http.{
  App, Cached, Route, reply, refuse, replied, cached, remember, ◌>>=◌, ◌>>◌, calling, or_conflict,
  is_permission_error,
}
use amlguard_eu_ai_agent.Api.Schemas.{StartInvestigationRequest, valid_start, valid_key}
use amlguard_eu_ai_agent.Api.Access.{allow, accept}
use amlguard_eu_ai_agent.Api.Routes.{start_investigation, start_fresh, start_or_cached, remembered}

cached-remember :
    (a k : String) (run : InvestigationRun) (cs : List Cached)
    → cached a k (remember a k run cs) ≡ some run
unfolding cached remember
cached-remember a k run [] = ground (arith, eq_refl a, eq_refl k)
cached-remember a k run (c ∷ cs) = ground (arith, cached-remember a k run cs)

module _ (key : String) (actor : Actor) where
  -- Where the call of the engine returns, its run is cached.
  answered :
      (r : Result InvestigationRun) (app : App) (run : InvestigationRun)
      → ((calling (or_conflict is_permission_error) (λ e. (r, e)) >>= λ new.
            remembered key actor new)
          app).0
        ≡ replied run
      → cached actor.actor_id key
          ((calling (or_conflict is_permission_error) (λ e. (r, e)) >>= λ new.
              remembered key actor new)
            app).1.idempotency
        ≡ some run
  unfolding remembered
  answered (ok new) app run h = rw (cached-remember actor.actor_id key new app.idempotency) (cc h)
  answered (err e) app run h = cc h

both : (a b : Bool) → (a && b) ≡ true → (a ≡ true) × (b ≡ true)
both true b h = (refl, h)
both false b h = cc

-- A request that is answered with a value passed both gates.
gate :
    {A : Type 0} (may fits : Bool) (m : Route A) (app : App) (a : A)
    → (((if may then reply tt else refuse 403) >> (accept fits >> m)) app).0 ≡ replied a
    → (may ≡ true) × (fits ≡ true)
gate true true m app a h = (refl, refl)
gate true false m app a h = cc
gate false fits m app a h = cc

module _ (s : Services) (x : Runtime) where
  start_fresh-caches :
      (body : StartInvestigationRequest) (key : String) (actor : Actor) (c r : String) (app : App)
      (run : InvestigationRun)
      → (start_fresh s x body key actor c r app).0 ≡ replied run
      → cached actor.actor_id key (start_fresh s x body key actor c r app).1.idempotency ≡ some run
  unfolding start_fresh
  start_fresh-caches body key actor c r app run h =
      let (res, e) =
        start s x body.alert_id actor.actor_id actor.tenant_id body.context_condition c r
          app.engine in
      answered key actor res (record app { engine = e }) run h

  passed :
      (body : StartInvestigationRequest) (key : String) (actor : Actor) (c r : String) (app : App)
      (run : InvestigationRun)
      → (start_investigation s x body key actor c r app).0 ≡ replied run
      → (has_required_role ("analyst" ∷ "reviewer" ∷ []) actor ≡ true)
        × ((valid_start body && valid_key key) ≡ true)
  unfolding start_investigation allow
  passed body key actor c r app run h =
      gate (has_required_role ("analyst" ∷ "reviewer" ∷ []) actor)
        (valid_start body && valid_key key) _ app run h

  opens :
      (body : StartInvestigationRequest) (key : String) (actor : Actor) (c r : String) (app : App)
      → has_required_role ("analyst" ∷ "reviewer" ∷ []) actor ≡ true
      → (valid_start body && valid_key key) ≡ true
      → start_investigation s x body key actor c r app
        ≡ start_or_cached s x (cached actor.actor_id key app.idempotency) body key actor c r app
  unfolding start_investigation allow
  opens body key actor c r app may fits = rw (may, fits) refl

  caches :
      (old : Option InvestigationRun) (body : StartInvestigationRequest) (key : String)
      (actor : Actor) (c r : String) (app : App) (run : InvestigationRun)
      → cached actor.actor_id key app.idempotency ≡ old
      → (start_or_cached s x old body key actor c r app).0 ≡ replied run
      → cached actor.actor_id key (start_or_cached s x old body key actor c r app).1.idempotency
        ≡ some run
  caches none body key actor c r app run e h = start_fresh-caches body key actor c r app run h
  caches (some old) body key actor c r app run e h = cc (e, h)

  -- A start of an investigation that was answered with a run is answered with the same run when the
  -- actor sends the key again, with any valid body, and that second request changes nothing.
  pub start_investigation_again :
      (body body' : StartInvestigationRequest) (key : String) (actor : Actor) (c r c' r' : String)
      (app : App) (run : InvestigationRun)
      → (start_investigation s x body key actor c r app).0 ≡ replied run
      → valid_start body' ≡ true
      → let app' = (start_investigation s x body key actor c r app).1 in
        start_investigation s x body' key actor c' r' app' ≡ (replied run, app')
  start_investigation_again body body' key actor c r c' r' app run h v =
      let (may, fits) = passed body key actor c r app run h in
      let (_, long) = both (valid_start body) (valid_key key) fits in
      let e = opens body key actor c r app may fits in
      let known =
        caches (cached actor.actor_id key app.idempotency) body key actor c r app run refl
          (rw⁻¹ e h) in
      let app' =
        (start_or_cached s x (cached actor.actor_id key app.idempotency) body key actor c r
          app).1 in
      rw e (
        opens body' key actor c' r' app' may (rw (v, long) refl)
        ∙ ap (λ (o : Option InvestigationRun). start_or_cached s x o body' key actor c' r' app')
            known)
