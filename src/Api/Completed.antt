-- ===== src/Api/Completed.antt =====
-- The requests of src/amlguard/api/app.py that were carried out: a claim of a review, and a reset.
use amlguard_eu_ai_agent.Prelude.{
  String, true, false, ◌≡◌, refl, some, List, [], ◌∷◌, Bool-cases, inl, inr, not, ◌==◌, arith,
  eq_refl,
}
use amlguard_eu_ai_agent.Prelude.Dict.{lookup, is_none, lookup-put}
use amlguard_eu_ai_agent.Prelude.Lists.{any, select}
use amlguard_eu_ai_agent.Domain.{CaseData, same_status, waiting_for_human_review}
use amlguard_eu_ai_agent.Auth.{Actor, reset, authorize_case, claim_review, full_access_role}
use amlguard_eu_ai_agent.Graph.State.{Services}
use amlguard_eu_ai_agent.Graph.Sync.{cases_of}
use amlguard_eu_ai_agent.Graph.Engine
use amlguard_eu_ai_agent.Graph.Engine.{Runtime, is_busy}
use amlguard_eu_ai_agent.Graph.Engine.Reset.{Removed, reset-Removed}
use amlguard_eu_ai_agent.Api.Http.{
  App, Cached, Route, replied, refused, ◌>>◌, calling, change, reply, or_conflict, is_value_error,
  on_repository, uncaught,
}
use amlguard_eu_ai_agent.Api.Pages.{Page, to_home, analysts, forgotten, ui_reset_investigation}
use amlguard_eu_ai_agent.Api.Returned.{Admitted, enters}
use amlguard_eu_ai_agent.Api.Routes.{claim, ensure_waiting}
use amlguard_eu_ai_agent.Api.Forms.{record_claim}
use amlguard_eu_ai_agent.Tools.Repository
use amlguard_eu_ai_agent.Tools.Repository.{is_free_for}
use amlguard_eu_ai_agent.Prelude.Sets.{contains}
use amlguard_eu_ai_agent.Auth.Rules.{authorize_case-permitted}

forgets_responses :
    (k : String) (cs : List Cached)
    → any (λ c. c.response.case_id == k) (select (λ c. not (c.response.case_id == k)) cs) ≡ false
forgets_responses k [] = refl
forgets_responses k (c ∷ cs) = elim (Bool-cases (c.response.case_id == k)) [
  | inl here ↦ rw here (forgets_responses k cs)
  | inr other ↦ rw other (rw other (forgets_responses k cs))
]

-- The case is gone from the repository and from the cached responses, and an allowed actor asked.
pub record Forgotten (k : String) (actor : Actor) (app app' : App) : Type 0 where
  pub case : CaseData
  pub found : lookup k (cases_of app.engine.world) ≡ some case
  pub permitted : is_none (authorize_case actor case reset) ≡ true
  pub idle : is_busy case.status ≡ false
  pub removed : Removed k app.engine app'.engine
  pub responses : any (λ c. c.response.case_id == k) app'.idempotency ≡ false

module _ (s : Services) (x : Runtime) (k : String) (actor : Actor) where
  -- The steps of the route behind the checks.
  abbrev carry_out : Route Page
  carry_out = do
    calling (or_conflict is_value_error) (Engine.reset s x k actor.actor_id)
    change (forgotten s x k)
    reply to_home

  carry_out-Forgotten :
      (c : CaseData) (app : App) (page : Page)
      → Admitted s k actor reset app c
      → (carry_out app).0 ≡ replied page
      → Forgotten k actor app (carry_out app).1
  unfolding is_value_error
  carry_out-Forgotten c app page a h =
      elim (reset-Removed s x k actor.actor_id app.engine c a.found) [
        | inl (busy, e) ↦
            let bad : (carry_out app).0 ≡ refused 409 = rw e refl in absurd (cc (h, bad))
        | inr (free, e, removed) ↦ rw e (record {
          case = c;
          found = a.found;
          permitted = a.permitted;
          idle = free;
          removed = removed;
          responses = forgets_responses k app.idempotency;
        })
      ]

  -- A request to reset a case that is carried out came from an actor who may reset it, while it was
  -- neither OPEN nor RUNNING. Behind it the case is gone, with a reset in the audit events and every
  -- other case and thread as it was, and no cached response of a start is about it any more.
  pub ui_reset_investigation-Forgotten :
      (app : App) (page : Page)
      → (ui_reset_investigation s x k actor app).0 ≡ replied page
      → Forgotten k actor app (ui_reset_investigation s x k actor app).1
  unfolding ui_reset_investigation
  ui_reset_investigation-Forgotten app page h =
      let (c, a, e) = enters s k actor analysts reset (λ _. carry_out) app page h in
      rw e (carry_out-Forgotten c app page a (rw⁻¹ e h))

-- The review of the case is the actor's.
pub record Assigned (k : String) (actor : Actor) (app app' : App) : Type 0 where
  pub case : CaseData
  pub found : lookup k (cases_of app.engine.world) ≡ some case
  pub waiting : same_status case.status waiting_for_human_review ≡ true
  pub free : is_free_for actor.actor_id case.assigned_reviewer_id ≡ true
  pub separate :
      contains actor.roles full_access_role ≡ false
      → (actor.actor_id == case.assigned_investigator_id) ≡ false
  pub assigned :
      lookup k (cases_of app'.engine.world)
      ≡ some (record case { assigned_reviewer_id = some actor.actor_id })

module _ (s : Services) (x : Runtime) (k : String) (actor : Actor) where
  abbrev take_review : CaseData → Route Unit
  take_review case = do
    ensure_waiting case.status
    calling (or_conflict is_value_error)
        (on_repository (Repository.assign_reviewer k actor.actor_id))
    calling uncaught (record_claim s x k actor)

  take_review-Assigned :
      (c : CaseData) (app : App)
      → Admitted s k actor claim_review app c
      → (take_review c app).0 ≡ replied tt
      → Assigned k actor app (take_review c app).1
  unfolding is_value_error record_claim Repository.assign_reviewer Repository.get_case
      Repository.audit
  take_review-Assigned c app a h =
      elim (Bool-cases (same_status c.status waiting_for_human_review)) [
        | inr w ↦ let bad : (take_review c app).0 ≡ refused 409 = rw w refl in absurd (cc (h, bad))
        | inl w ↦ elim (Bool-cases (is_free_for actor.actor_id c.assigned_reviewer_id)) [
          | inr taken ↦
              let bad : (take_review c app).0 ≡ refused 409 = rw w (rw a.found (rw taken refl)) in
              absurd (cc (h, bad))
          | inl free ↦ rw w (
              rw a.found (
                rw free (record {
                  case = c;
                  found = a.found;
                  waiting = w;
                  free = free;
                  separate = λ plain.
                      ground
                        (arith, authorize_case-permitted actor c claim_review, a.permitted, plain);
                  assigned = ground (
                    arith,
                    lookup-put k k (record c { assigned_reviewer_id = some actor.actor_id })
                        (cases_of app.engine.world),
                    eq_refl k,
                  );
                })))
        ]
      ]

  -- A claim of a review that is carried out leaves the case with the actor as its reviewer and
  -- otherwise as it was, which waited for a human review and had no other reviewer; an actor who is
  -- no administrator is not the investigator of the case.
  pub claim-Assigned :
      (app : App)
      → (claim s x k actor app).0 ≡ replied tt
      → Assigned k actor app (claim s x k actor app).1
  unfolding claim
  claim-Assigned app h =
      let (c, a, e) = enters s k actor ("reviewer" ∷ []) claim_review take_review app tt h in
      rw e (take_review-Assigned c app a (rw⁻¹ e h))
