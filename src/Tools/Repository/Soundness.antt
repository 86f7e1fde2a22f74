-- ===== src/Tools/Repository/Soundness.antt =====
-- The well-formedness of the repository, and every operation that keeps it.
use amlguard_eu_ai_agent.Prelude.{
  String, Bool, false, ◌≡◌, none, some, [], ◌∷◌, eq_iff, arith, Option-cases, inl, inr, Bool-cases,
  continue, modify, ◌==◌, ◌+◌, ◌>>◌, ◌++◌, refl, pure, true, err, ok,
}
use amlguard_eu_ai_agent.Prelude.Dict.{Dict, lookup, put, remove, values, lookup-put, lookup-remove}
use amlguard_eu_ai_agent.Prelude.Lists.{first, any}
use amlguard_eu_ai_agent.Domain.{Json, CaseData, CaseStatus, HumanReview, Recommendation}
use amlguard_eu_ai_agent.Governance.AuditChain.{genesis_hash, IsChained}
use amlguard_eu_ai_agent.Tools.Repository.{
  Repository, same_alert, set_status, audit, new_repository, with_case, Bank, save_review,
  create_case, assign_reviewer, save_recommendation, delete_case, create_new, get_alert,
  is_free_for, one, same_decision, new_case,
}
use amlguard_eu_ai_agent.Tools.Repository.Chain.{next_event-IsChained}

-- Every case is stored under its own identifier.
pub record IsKeyed (d : Dict CaseData) : Type 0 where
  pub keyed : (k : String) (c : CaseData) → lookup k d ≡ some c → c.case_id ≡ k

-- No two cases of one tenant are about one alert.
pub record IsUnique (d : Dict CaseData) : Type 0 where
  pub unique :
      (k j : String) (a b : CaseData)
      → lookup k d ≡ some a
      → lookup j d ≡ some b
      → a.alert_id ≡ b.alert_id
      → a.tenant_id ≡ b.tenant_id
      → k ≡ j

pub record IsSound (digest : Json → String) (r : Repository) : Type 0 where
  pub chained : IsChained digest 1 genesis_hash r.audit_events
  pub keyed : IsKeyed r.cases
  pub unique : IsUnique r.cases

-- `c'` is the case `c` after an update of what may change.
pub record SameCase (c c' : CaseData) : Type 0 where
  pub case_id : c'.case_id ≡ c.case_id
  pub alert_id : c'.alert_id ≡ c.alert_id
  pub tenant_id : c'.tenant_id ≡ c.tenant_id

module _ (d : Dict CaseData) (k : String) (c c' : CaseData) (found : lookup k d ≡ some c)
    (same : SameCase c c') where
  put-IsKeyed : IsKeyed d → IsKeyed (put k c' d)
  put-IsKeyed h = record {
    keyed =
        λ j x e. ground (arith, lookup-put k j c' d, eq_iff k j, h.keyed k c found, h.keyed j x);
  }

  put-IsUnique : IsUnique d → IsUnique (put k c' d)
  put-IsUnique h = record {
    unique = λ i j a b ea eb alert tenant. ground (
      arith,
      lookup-put k i c' d,
      lookup-put k j c' d,
      eq_iff k i,
      eq_iff k j,
      h.unique i j a b,
      h.unique k j c b found,
      h.unique i k a c,
    );
  }

first-none-lookup :
    (p : CaseData → Bool) (d : Dict CaseData) (k : String) (c : CaseData)
    → first p (values d) ≡ none
    → lookup k d ≡ some c
    → p c ≡ false
unfolding lookup values
first-none-lookup p [] k c e h = ground arith
first-none-lookup p ((j, x) ∷ d) k c e h = ground (arith, first-none-lookup p d k c)

module _ (d : Dict CaseData) (k : String) (c : CaseData) (own : c.case_id ≡ k)
    (fresh : first (same_alert c.alert_id c.tenant_id) (values d) ≡ none) where
  other_alert :
      (j : String) (x : CaseData)
      → lookup j d ≡ some x
      → x.alert_id ≡ c.alert_id
      → x.tenant_id ≡ c.tenant_id
      → ⊥
  other_alert j x e alert tenant = ground (
    arith,
    first-none-lookup (same_alert c.alert_id c.tenant_id) d j x fresh e,
    eq_iff x.alert_id c.alert_id,
    eq_iff x.tenant_id c.tenant_id,
  )

  new-IsKeyed : IsKeyed d → IsKeyed (put k c d)
  new-IsKeyed h = record {
    keyed = λ j x e. ground (arith, lookup-put k j c d, eq_iff k j, h.keyed j x);
  }

  new-IsUnique : IsUnique d → IsUnique (put k c d)
  new-IsUnique h = record {
    unique = λ i j a b ea eb alert tenant. ground (
      arith,
      lookup-put k i c d,
      lookup-put k j c d,
      eq_iff k i,
      eq_iff k j,
      h.unique i j a b,
      other_alert j b,
      other_alert i a,
    );
  }

remove-IsKeyed : (d : Dict CaseData) (k : String) → IsKeyed d → IsKeyed (remove k d)
remove-IsKeyed d k h = record { keyed = λ j x e. ground (arith, lookup-remove k j d, h.keyed j x) }

remove-IsUnique : (d : Dict CaseData) (k : String) → IsUnique d → IsUnique (remove k d)
remove-IsUnique d k h = record {
  unique = λ i j a b ea eb.
      h.unique i j a b (ground (arith, lookup-remove k i d)) (ground (arith, lookup-remove k j d));
}

module _ (digest : Json → String) where
  pub new_repository-IsSound : (bank : Bank) → IsSound digest (new_repository bank)
  unfolding new_repository lookup
  new_repository-IsSound bank = record {
    chained = tt;
    keyed = record { keyed = λ k c e. cc };
    unique = record { unique = λ k j a b e. cc };
  }

  -- An update of a stored case.
  with_case-IsSound :
      (r : Repository) (k : String) (c c' : CaseData)
      → lookup k r.cases ≡ some c
      → SameCase c c'
      → IsSound digest r
      → IsSound digest (with_case k c' r)
  with_case-IsSound r k c c' e same h = record {
    chained = h.chained;
    keyed = put-IsKeyed r.cases k c c' e same h.keyed;
    unique = put-IsUnique r.cases k c c' e same h.unique;
  }

  pub audit-IsSound :
      (event_type actor_id case_id : String) (payload : Dict Json) (r : Repository)
      → IsSound digest r
      → IsSound digest (audit digest event_type actor_id case_id payload r).1
  unfolding audit
  audit-IsSound event_type actor_id case_id payload r h = record {
    chained =
        next_event-IsChained digest event_type actor_id case_id payload r.audit_events h.chained;
    keyed = h.keyed;
    unique = h.unique;
  }

  module _ (r : Repository) (k : String) (h : IsSound digest r) where
    pub set_status-IsSound : (status : CaseStatus) → IsSound digest (set_status k status r).1
    unfolding set_status
    set_status-IsSound status = elim (Option-cases (lookup k r.cases)) [
      | inl e ↦ rw e h
      | inr (c, e) ↦ rw e (
          with_case-IsSound r k c (record c { status = status }) e
            (record { case_id = refl; alert_id = refl; tenant_id = refl }) h)
    ]

    pub save_recommendation-IsSound :
        (x : Recommendation) → IsSound digest (save_recommendation k x r).1
    unfolding save_recommendation
    save_recommendation-IsSound x = elim (Option-cases (lookup k r.cases)) [
      | inl e ↦ rw e h
      | inr (c, e) ↦ rw e (
          with_case-IsSound r k c
            (record c {
              recommendation_version = c.recommendation_version + 1;
              recommendation = some x;
            })
            e (record { case_id = refl; alert_id = refl; tenant_id = refl }) h)
    ]

    pub assign_reviewer-IsSound :
        (reviewer : String) → IsSound digest (assign_reviewer k reviewer r).1
    unfolding assign_reviewer
    assign_reviewer-IsSound reviewer = elim (Option-cases (lookup k r.cases)) [
      | inl e ↦ rw e h
      | inr (c, e) ↦ elim (Bool-cases (is_free_for reviewer c.assigned_reviewer_id)) [
        | inr taken ↦ rw (e, taken) h
        | inl free ↦
            rw (e, free)
              (with_case-IsSound r k c (record c { assigned_reviewer_id = some reviewer }) e
                (record { case_id = refl; alert_id = refl; tenant_id = refl }) h)
      ]
    ]

    pub delete_case-IsSound : IsSound digest (delete_case k r).1
    unfolding delete_case
    delete_case-IsSound = elim (Option-cases (lookup k r.cases)) [
      | inl e ↦ rw e h
      | inr (c, e) ↦ rw e (record {
        chained = h.chained;
        keyed = remove-IsKeyed r.cases k h.keyed;
        unique = remove-IsUnique r.cases k h.unique;
      })
    ]

  pub save_review-IsSound :
      (x : HumanReview) (r : Repository) → IsSound digest r → IsSound digest (save_review x r).1
  unfolding save_review
  save_review-IsSound x r h = elim (Option-cases (lookup x.case_id r.cases)) [
    | inl e ↦ rw e h
    | inr (c, e) ↦ elim (Bool-cases (any (same_decision x) c.reviews)) [
      | inl twice ↦ rw (e, twice) h
      | inr new ↦
          rw (e, new)
            (with_case-IsSound r x.case_id c (record c { reviews = c.reviews ++ x ∷ [] }) e
              (record { case_id = refl; alert_id = refl; tenant_id = refl }) h)
    ]
  ]

  create_new-IsSound :
      (alert tenant investigator case_id run_id : String) (r : Repository)
      → first (same_alert alert tenant) (values r.cases) ≡ none
      → IsSound digest r
      → IsSound digest (create_new alert tenant investigator case_id run_id r).1
  unfolding create_new get_alert
  create_new-IsSound alert tenant investigator case_id run_id r fresh h =
      elim (one (λ a. a.alert_id) alert r.bank.alerts)
        as (λ o.
          IsSound digest
            (continue {B = CaseData × Bool} o
              (λ a.
                modify (
                  with_case case_id
                    (new_case case_id run_id alert a.customer_id tenant investigator))
                >> pure ((new_case case_id run_id alert a.customer_id tenant investigator), true))
              r).1) [
                | err x ↦ h
                | ok a ↦ record {
                  chained = h.chained;
                  keyed =
                      new-IsKeyed r.cases case_id
                        (new_case case_id run_id alert a.customer_id tenant investigator) refl fresh
                        h.keyed;
                  unique =
                      new-IsUnique r.cases case_id
                        (new_case case_id run_id alert a.customer_id tenant investigator) refl fresh
                        h.unique;
                }
              ]

  pub create_case-IsSound :
      (alert tenant investigator case_id run_id : String) (r : Repository)
      → IsSound digest r
      → IsSound digest (create_case alert tenant investigator case_id run_id r).1
  unfolding create_case
  create_case-IsSound alert tenant investigator case_id run_id r h =
      elim (Option-cases (first (same_alert alert tenant) (values r.cases))) [
        | inl e ↦ rw e (create_new-IsSound alert tenant investigator case_id run_id r e h)
        | inr (c, e) ↦ elim (Bool-cases (c.assigned_investigator_id == investigator)) [
          | inl own ↦ rw (e, own) h
          | inr other ↦ rw (e, other) h
        ]
      ]
