-- ===== src/Graph/Engine/Blocks.antt =====
-- What `record_security_event` of src/amlguard/graph/service.py leaves behind, and that no human
-- decision passes it.
use amlguard_eu_ai_agent.Prelude.{
  String, true, ◌≡◌, refl, some, ◌∷◌, err, arith, eq_refl, Bool-cases, inl, inr, hard_blocked_case,
  not_waiting_for_information,
}
use amlguard_eu_ai_agent.Prelude.Dict.{lookup, lookup-put, put}
use amlguard_eu_ai_agent.Prelude.Sets.{contains, sorted_set, contains-sorted_set}
use amlguard_eu_ai_agent.Domain.{CaseData, hard_blocked, HumanReview}
use amlguard_eu_ai_agent.Governance.HardBlocks.{critical_events, evaluate, contains-hard_blocks}
use amlguard_eu_ai_agent.Tools.Repository
use amlguard_eu_ai_agent.Graph.State.{Services, Submission}
use amlguard_eu_ai_agent.Graph.Flow.{Thread}
use amlguard_eu_ai_agent.Graph.Nodes.{notify}
use amlguard_eu_ai_agent.Graph.Sync.{cases_of}
use amlguard_eu_ai_agent.Graph.Engine.{
  Engine, Runtime, record_security_event, review, supply_information, blocked_thread,
}

-- The event stands against the case, in the repository and in the thread.
pub record Blocked (k event : String) (e : Engine) : Type 0 where
  pub case : CaseData
  pub found : lookup k (cases_of e.world) ≡ some case
  pub shown : case.status ≡ hard_blocked
  pub at : Thread
  pub held : lookup k e.threads ≡ some at
  pub stopped : at.state.status ≡ hard_blocked
  pub listed : contains at.state.security_events event ≡ true
  pub revoked : contains at.state.hard_blocks event ≡ true

abbrev blocked_case : CaseData → CaseData
blocked_case c = record c { status = hard_blocked }

module _ (s : Services) (x : Runtime) where
  record_security_event-Blocked :
      (k event : String) (e : Engine) (c : CaseData) (t : Thread)
      → lookup k (cases_of e.world) ≡ some c
      → lookup k e.threads ≡ some t
      → contains critical_events event ≡ true
      → Blocked k event (record_security_event s x k event e).1
  unfolding record_security_event notify Repository.audit Repository.set_status Repository.get_case
  record_security_event-Blocked k event e c t found held critical =
      let events = sorted_set (event ∷ t.state.security_events) in
      let blocks = (evaluate t.state.control_results events).hard_blocks in
      let t' = blocked_thread s x events blocks t in
      let listed : contains events event ≡ true =
        ground
          (arith, contains-sorted_set (event ∷ t.state.security_events) event, eq_refl event) in
      let shown : lookup k (put k (blocked_case c) (cases_of e.world)) ≡ some (blocked_case c) =
        ground (arith, lookup-put k k (blocked_case c) (cases_of e.world), eq_refl k) in
      let kept : lookup k (put k t' e.threads) ≡ some t' =
        ground (arith, lookup-put k k t' e.threads, eq_refl k) in
      let revoked : contains blocks event ≡ true =
        ground
          (arith, contains-hard_blocks t.state.control_results events event, critical, listed) in
      elim (Bool-cases (s.hook_raises e.world.events "investigation_hard_blocked")) [
        | inl raises ↦
            rw (critical, found, held)
              (rw found (
                rw raises (record {
                  case = blocked_case c;
                  found = shown;
                  shown = refl;
                  at = t';
                  held = kept;
                  stopped = refl;
                  listed = listed;
                  revoked = revoked;
                })))
        | inr returns ↦
            rw (critical, found, held)
              (rw found (
                rw returns (
                  rw shown (record {
                    case = blocked_case c;
                    found = shown;
                    shown = refl;
                    at = t';
                    held = kept;
                    stopped = refl;
                    listed = listed;
                    revoked = revoked;
                  }))))
      ]

  refused-Blocked :
      (k event : String) (e : Engine) (r : HumanReview) (sub : Submission)
      → Blocked k event e
      → r.case_id ≡ k
      → (review s x r e ≡ (err hard_blocked_case, e))
        × (supply_information s x k sub e ≡ (err not_waiting_for_information, e))
  unfolding review supply_information Repository.get_case
  refused-Blocked k event e r sub b own =
      (rw own (rw b.found (rw b.shown refl)), rw b.found (rw b.shown refl))

  -- After a critical event of a known case with a thread, whether the hook raises or not, the
  -- repository shows the case as hard blocked, and so does its thread, which lists the event among
  -- its security events and among its hard blocks. From there every review of the case and every
  -- submission of information for it raises, and changes nothing.
  pub record_security_event_stops :
      (k event : String) (e : Engine) (c : CaseData) (t : Thread)
      → lookup k (cases_of e.world) ≡ some c
      → lookup k e.threads ≡ some t
      → contains critical_events event ≡ true
      → let e' = (record_security_event s x k event e).1 in
        Blocked k event e'
        × ((r : HumanReview) (sub : Submission)
            → r.case_id ≡ k
            → (review s x r e' ≡ (err hard_blocked_case, e'))
              × (supply_information s x k sub e' ≡ (err not_waiting_for_information, e')))
  record_security_event_stops k event e c t found held critical =
      let b = record_security_event-Blocked k event e c t found held critical in
      (b, λ r sub own. refused-Blocked k event _ r sub b own)
