-- ===== src/Tools/Repository/Cases.antt =====
-- What the operations do to the cases, and every sequence of them.
use amlguard_eu_ai_agent.Prelude.{
  String, Bool, true, false, ◌≡◌, none, some, List, [], ◌∷◌, arith, ok, Option-cases, inl, inr,
  eq_iff,
}
use amlguard_eu_ai_agent.Prelude.Dict.{Dict, put, values}
use amlguard_eu_ai_agent.Prelude.Lists.{first}
use amlguard_eu_ai_agent.Domain.{Json, CaseData, CaseStatus, Recommendation, HumanReview}
use amlguard_eu_ai_agent.Simulation.Models.{Bank}
use amlguard_eu_ai_agent.Tools.Repository.{
  Repository, new_repository, create_new, create_case, same_alert, delete_case, save_recommendation,
  save_review, assign_reviewer, set_status, audit, get_alert, create_or_find,
}
use amlguard_eu_ai_agent.Tools.Repository.Soundness.{
  IsSound, create_case-IsSound, new_repository-IsSound, delete_case-IsSound,
  save_recommendation-IsSound, save_review-IsSound, assign_reviewer-IsSound, set_status-IsSound,
  audit-IsSound,
}
use amlguard_eu_ai_agent.Governance.AuditChain.{verify_chain, verify_chain_lem}

-- A call of a method that writes.
pub data Operation : Type 0 where
  creating : (alert_id tenant_id investigator_id case_id run_id : String) → Operation
  deleting : String → Operation
  recommending : String → Recommendation → Operation
  reviewing : HumanReview → Operation
  assigning : (case_id reviewer_id : String) → Operation
  marking : String → CaseStatus → Operation
  auditing : (event_type actor_id case_id : String) → Dict Json → Operation

module _ (digest : Json → String) where
  -- The repository after the call, whether it returned or raised.
  unfoldable pub perform : Operation → Repository → Repository
  perform (creating a t i c u) r = (create_case a t i c u r).1
  perform (deleting k) r = (delete_case k r).1
  perform (recommending k x) r = (save_recommendation k x r).1
  perform (reviewing x) r = (save_review x r).1
  perform (assigning k v) r = (assign_reviewer k v r).1
  perform (marking k s) r = (set_status k s r).1
  perform (auditing e a k p) r = (audit digest e a k p r).1

  unfoldable pub perform_all : List Operation → Repository → Repository
  unfolding perform
  perform_all [] r = r
  perform_all (o ∷ os) r = perform_all os (perform o r)

  perform-IsSound :
      (o : Operation) (r : Repository) → IsSound digest r → IsSound digest (perform o r)
  unfolding perform
  perform-IsSound (creating a t i c u) r h = create_case-IsSound digest a t i c u r h
  perform-IsSound (deleting k) r h = delete_case-IsSound digest r k h
  perform-IsSound (recommending k x) r h = save_recommendation-IsSound digest r k h x
  perform-IsSound (reviewing x) r h = save_review-IsSound digest x r h
  perform-IsSound (assigning k v) r h = assign_reviewer-IsSound digest r k h v
  perform-IsSound (marking k s) r h = set_status-IsSound digest r k h s
  perform-IsSound (auditing e a k p) r h = audit-IsSound digest e a k p r h

  perform_all-IsSound :
      (os : List Operation) (r : Repository) → IsSound digest r → IsSound digest (perform_all os r)
  unfolding perform_all
  perform_all-IsSound [] r h = h
  perform_all-IsSound (o ∷ os) r h = perform_all-IsSound os (perform o r) (perform-IsSound o r h)

  -- After any sequence of writing calls on a new repository, whether they return or raise, the
  -- audit chain is linked, every case is stored under its own identifier, and no two cases of one
  -- tenant are about one alert.
  pub perform_all-new_repository-IsSound :
      (os : List Operation) (bank : Bank) → IsSound digest (perform_all os (new_repository bank))
  perform_all-new_repository-IsSound os bank =
      perform_all-IsSound os (new_repository bank) (new_repository-IsSound digest bank)

  -- After any sequence of writing calls on a new repository, the verification of its audit events
  -- reports no invalid sequence number.
  pub verify_chain-perform_all :
      (os : List Operation) (bank : Bank)
      → verify_chain digest (perform_all os (new_repository bank)).audit_events ≡ []
  verify_chain-perform_all os bank =
      verify_chain_lem digest (perform_all os (new_repository bank)).audit_events
        (perform_all-new_repository-IsSound os bank).chained

first-put :
    (p : CaseData → Bool) (k : String) (c : CaseData) (d : Dict CaseData)
    → first p (values d) ≡ none
    → p c ≡ true
    → first p (values (put k c d)) ≡ some c
unfolding put values
first-put p k c [] e h = ground arith
first-put p k c ((j, x) ∷ d) e h = ground (arith, first-put p k c d)

create_new_stores :
    (alert tenant investigator case_id run_id : String) (r r' : Repository) (c : CaseData)
    (b : Bool)
    → create_new alert tenant investigator case_id run_id r ≡ (ok (c, b), r')
    → (r'.cases ≡ put case_id c r.cases)
      × (c.alert_id ≡ alert)
      × (c.tenant_id ≡ tenant)
      × (c.assigned_investigator_id ≡ investigator)
unfolding create_new get_alert
create_new_stores alert tenant investigator case_id run_id r r' c b h = ground arith

module _ (alert tenant investigator case_id run_id : String) (r r' : Repository) (c : CaseData)
    (b : Bool) where
  created_fresh :
      first (same_alert alert tenant) (values r.cases) ≡ none
      → create_case alert tenant investigator case_id run_id r ≡ (ok (c, b), r')
      → create_new alert tenant investigator case_id run_id r ≡ (ok (c, b), r')
  unfolding create_case
  created_fresh fresh h = ground arith

  created_old :
      (x : CaseData)
      → first (same_alert alert tenant) (values r.cases) ≡ some x
      → create_case alert tenant investigator case_id run_id r ≡ (ok (c, b), r')
      → (x ≡ c) × (c.assigned_investigator_id ≡ investigator) × (r ≡ r')
  unfolding create_case
  created_old x e h = ground (arith, eq_iff x.assigned_investigator_id investigator)

found_again :
    (alert tenant investigator case_id run_id : String) (r : Repository) (c : CaseData)
    → first (same_alert alert tenant) (values r.cases) ≡ some c
    → c.assigned_investigator_id ≡ investigator
    → create_case alert tenant investigator case_id run_id r ≡ (ok (c, false), r)
unfolding create_case
found_again alert tenant investigator case_id run_id r c e own =
    rw (e, create_or_find) (rw ((eq_iff c.assigned_investigator_id investigator).1 own))

-- After a call of `create_case` that returned a case, a call for the same alert, tenant and
-- investigator on the repository that the first one left returns that case, as not created, and
-- leaves the repository as it is, whatever identifiers would have been drawn.
pub create_case_again :
    (alert tenant investigator case_id run_id case_id' run_id' : String) (r r' : Repository)
    (c : CaseData) (b : Bool)
    → create_case alert tenant investigator case_id run_id r ≡ (ok (c, b), r')
    → create_case alert tenant investigator case_id' run_id' r' ≡ (ok (c, false), r')
create_case_again alert tenant investigator case_id run_id case_id' run_id' r r' c b h =
    elim (Option-cases (first (same_alert alert tenant) (values r.cases))) [
      | inl fresh ↦
          let (cases, a, t, i) =
            create_new_stores alert tenant investigator case_id run_id r r' c b
              (created_fresh alert tenant investigator case_id run_id r r' c b fresh h) in
          found_again alert tenant investigator case_id' run_id' r' c
            (ground (
              arith,
              cases,
              a,
              t,
              fresh,
              first-put (same_alert alert tenant) case_id c r.cases,
              eq_iff c.alert_id alert,
              eq_iff c.tenant_id tenant,
            ))
            i
      | inr (x, e) ↦
          let (same, i, state) =
            created_old alert tenant investigator case_id run_id r r' c b x e h in
          found_again alert tenant investigator case_id' run_id' r' c
            (ground (arith, e, same, state)) i
    ]
