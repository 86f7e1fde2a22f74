-- ===== src/Graph/Engine/Reset.antt =====
-- `reset` of src/amlguard/graph/service.py: what it removes and what it keeps.
use amlguard_eu_ai_agent.Prelude.{
  String, true, false, ◌≡◌, refl, none, some, [], ◌∷◌, ◌++◌, ok, err, arith, eq_refl, case_running,
  unknown_key, ◌==◌, Bool-cases, inl, inr, ◌⊎◌,
}
use amlguard_eu_ai_agent.Prelude.Dict.{lookup, remove, lookup-remove}
use amlguard_eu_ai_agent.Domain.{CaseData}
use amlguard_eu_ai_agent.Tools.Repository
use amlguard_eu_ai_agent.Graph.State.{Services}
use amlguard_eu_ai_agent.Graph.Sync.{cases_of}
use amlguard_eu_ai_agent.Graph.Engine.{
  Engine, Runtime, reset, to_run, is_busy, Dict, Thread, Result, dropped,
}
use amlguard_eu_ai_agent.Governance.AuditChain.{AuditEvent}

-- The case `k` is gone, and nothing else.
pub record Removed (k : String) (e e' : Engine) : Type 0 where
  pub gone : lookup k (cases_of e'.world) ≡ none
  pub unknown : to_run k e' ≡ (err unknown_key, e')
  pub others :
      (j : String) → (k == j) ≡ false → lookup j (cases_of e'.world) ≡ lookup j (cases_of e.world)
  pub threads : (j : String) → (k == j) ≡ false → lookup j e'.threads ≡ lookup j e.threads
  pub event : AuditEvent
  pub history :
      e'.world.tools.repository.audit_events ≡ e.world.tools.repository.audit_events ++ event ∷ []
  pub named : event.event_type ≡ "investigation_reset"
  pub about : event.case_id ≡ k

module _ (s : Services) (x : Runtime) where
  dropped_others :
      (k j : String) (d : Dict Thread) (r : Result (Unit {0}))
      → (k == j) ≡ false
      → lookup j (dropped s x r k d) ≡ lookup j d
  dropped_others k j d (ok done) ne = ground (arith, lookup-remove k j d, ne)
  dropped_others k j d (err e) ne = refl

  -- A reset of a stored case raises and changes nothing where the case is OPEN or RUNNING. Else it
  -- returns the case; the case is gone and can no longer be read, every other case and the threads
  -- of other cases are as they were, and the audit events are the earlier ones and one about the
  -- reset of this case.
  pub reset-Removed :
      (k actor : String) (e : Engine) (c : CaseData)
      → lookup k (cases_of e.world) ≡ some c
      → (is_busy c.status ≡ true) × (reset s x k actor e ≡ (err case_running, e))
        ⊎ (is_busy c.status ≡ false)
          × ((reset s x k actor e).0 ≡ ok c)
          × Removed k e (reset s x k actor e).1
  unfolding reset to_run Repository.get_case Repository.delete_case Repository.audit
  reset-Removed k actor e c found =
      let gone : lookup k (remove k (cases_of e.world)) ≡ none =
        ground (arith, lookup-remove k k (cases_of e.world), eq_refl k) in
      elim (Bool-cases (is_busy c.status)) [
        | inl busy ↦ inl (busy, rw found (rw busy refl))
        | inr idle ↦ inr (
          idle,
          rw found (rw idle (rw found refl)),
          rw found (
              rw idle (
                rw found (record {
                  gone = gone;
                  unknown = rw gone refl;
                  others = λ j ne. ground (arith, lookup-remove k j (cases_of e.world), ne);
                  threads = λ j ne. dropped_others k j e.threads (x.delete_thread k) ne;
                  event = _;
                  history = refl;
                  named = refl;
                  about = refl;
                }))),
        )
      ]
