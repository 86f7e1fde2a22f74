-- ===== src/Tools/Repository/Growth.antt =====
-- What no writing call takes back: a case keeps its parties, its reviewer and its reviews.
use mathlib.Core.List.{append-nil, append_assoc}
use amlguard_eu_ai_agent.Prelude.{
  String, Bool, true, false, ◌≡◌, refl, Option, none, some, List, [], ◌∷◌, ◌++◌, ◌≤◌, ◌==◌, not,
  arith, sym, ◌∙◌, eq_iff, Option-cases, Bool-cases, inl, inr, subst, ◌⊎◌, Result-cases,
}
use amlguard_eu_ai_agent.Prelude.Dict.{lookup, put, lookup-put, lookup-remove, values}
use amlguard_eu_ai_agent.Prelude.Lists.{all, any, first}
use amlguard_eu_ai_agent.Domain.{Json, CaseData, HumanReview, Recommendation, CaseStatus}
use amlguard_eu_ai_agent.Tools.Repository.{
  Repository, save_review, create_case, set_status, save_recommendation, is_free_for,
  assign_reviewer, delete_case, with_case, create_new, get_alert, new_case, same_decision, audit,
  one, same_alert, Alert,
}
use amlguard_eu_ai_agent.Tools.Repository.Cases.{
  Operation, creating, deleting, recommending, reviewing, assigning, marking, auditing, perform,
  perform_all,
}

-- `c'` is a later state of the case `c`.
pub record Grows (c c' : CaseData) : Type 0 where
  pub alert_id : c'.alert_id ≡ c.alert_id
  pub tenant_id : c'.tenant_id ≡ c.tenant_id
  pub investigator : c'.assigned_investigator_id ≡ c.assigned_investigator_id
  pub reviewer : (v : String) → c.assigned_reviewer_id ≡ some v → c'.assigned_reviewer_id ≡ some v
  pub version : c.recommendation_version ≤ c'.recommendation_version
  pub more : List HumanReview
  pub reviews : c'.reviews ≡ c.reviews ++ more

Grows-refl : (c : CaseData) → Grows c c
Grows-refl c = record {
  alert_id = refl;
  tenant_id = refl;
  investigator = refl;
  reviewer = λ v e. e;
  version = omega arith;
  more = [];
  reviews = sym (append-nil c.reviews);
}

Grows-trans : {a b c : CaseData} → Grows a b → Grows b c → Grows a c
Grows-trans {a} g h = record {
  alert_id = h.alert_id ∙ g.alert_id;
  tenant_id = h.tenant_id ∙ g.tenant_id;
  investigator = h.investigator ∙ g.investigator;
  reviewer = λ v e. h.reviewer v (g.reviewer v e);
  version = omega arith;
  more = g.more ++ h.more;
  reviews = cc (g.reviews, h.reviews, append_assoc a.reviews g.more h.more);
}

-- The calls that can drop or replace the case `k` as a whole.
abbrev pub replaces : String → Operation → Bool
replaces k (creating a t i c u) = c == k
replaces k (deleting j) = j == k
replaces k _ = false

-- The case `k` after a call.
abbrev Kept : String → CaseData → Repository → Type 0
Kept k c r = (c' : CaseData) × (lookup k r.cases ≡ some c') × Grows c c'

module _ (k j : String) (c x x' : CaseData) (r : Repository) (e : lookup k r.cases ≡ some c)
    (f : lookup j r.cases ≡ some x) (g : Grows x x') where
  with_case-Kept : Kept k c (with_case j x' r)
  with_case-Kept = elim (Bool-cases (j == k)) [
    | inl same ↦ (
      x',
      ground (arith, lookup-put j k x' r.cases),
      subst (λ y. Grows y x') (ground (arith, eq_iff j k)) g,
    )
    | inr other ↦ (c, ground (arith, lookup-put j k x' r.cases), Grows-refl c)
  ]

-- `create_case` leaves the cases as they are, or stores one under the drawn identifier.
create_new_cases :
    (a t i d u : String) (r : Repository)
    → ((create_new a t i d u r).1.cases ≡ r.cases)
      ⊎ ((x : CaseData) × ((create_new a t i d u r).1.cases ≡ put d x r.cases))
unfolding create_new get_alert
create_new_cases a t i d u r =
    elim (Result-cases (one (λ (b : Alert). b.alert_id) a r.bank.alerts)) [
      | inl (b, e) ↦ inr (new_case d u a b.customer_id t i, rw e)
      | inr (x, e) ↦ inl (rw e)
    ]

create_case_cases :
    (a t i d u : String) (r : Repository)
    → ((create_case a t i d u r).1.cases ≡ r.cases)
      ⊎ ((x : CaseData) × ((create_case a t i d u r).1.cases ≡ put d x r.cases))
unfolding create_case
create_case_cases a t i d u r = elim (Option-cases (first (same_alert a t) (values r.cases))) [
  | inl fresh ↦ rw fresh (create_new_cases a t i d u r)
  | inr (x, e) ↦ inl (ground (arith, e))
]

still : (v w : String) (o : Option String) → is_free_for v o ≡ true → o ≡ some w → some v ≡ some w
still v w none h q = cc
still v w (some x) h q = ground (arith, eq_iff x v)

module _ (k : String) (c : CaseData) (r : Repository) (e : lookup k r.cases ≡ some c) where
  unchanged : Kept k c r
  unchanged = (c, e, Grows-refl c)

  marking-Kept : (j : String) (s : CaseStatus) → Kept k c (set_status j s r).1
  unfolding set_status
  marking-Kept j s = elim (Option-cases (lookup j r.cases)) [
    | inl f ↦ rw f unchanged
    | inr (x, f) ↦ rw f (
        with_case-Kept k j c x _ r e f (record {
          alert_id = refl;
          tenant_id = refl;
          investigator = refl;
          reviewer = λ v q. q;
          version = omega arith;
          more = [];
          reviews = sym (append-nil x.reviews);
        }))
  ]

  recommending-Kept : (j : String) (y : Recommendation) → Kept k c (save_recommendation j y r).1
  unfolding save_recommendation
  recommending-Kept j y = elim (Option-cases (lookup j r.cases)) [
    | inl f ↦ rw f unchanged
    | inr (x, f) ↦ rw f (
        with_case-Kept k j c x _ r e f (record {
          alert_id = refl;
          tenant_id = refl;
          investigator = refl;
          reviewer = λ v q. q;
          version = omega arith;
          more = [];
          reviews = sym (append-nil x.reviews);
        }))
  ]

  assigning-Kept : (j v : String) → Kept k c (assign_reviewer j v r).1
  unfolding assign_reviewer
  assigning-Kept j v = elim (Option-cases (lookup j r.cases)) [
    | inl f ↦ rw f unchanged
    | inr (x, f) ↦ elim (Bool-cases (is_free_for v x.assigned_reviewer_id)) [
      | inr taken ↦ rw (f, taken) unchanged
      | inl free ↦
          rw (f, free)
            (with_case-Kept k j c x _ r e f (record {
              alert_id = refl;
              tenant_id = refl;
              investigator = refl;
              reviewer = λ w q. still v w x.assigned_reviewer_id free q;
              version = omega arith;
              more = [];
              reviews = sym (append-nil x.reviews);
            }))
    ]
  ]

  reviewing-Kept : (y : HumanReview) → Kept k c (save_review y r).1
  unfolding save_review
  reviewing-Kept y = elim (Option-cases (lookup y.case_id r.cases)) [
    | inl f ↦ rw f unchanged
    | inr (x, f) ↦ elim (Bool-cases (any (same_decision y) x.reviews)) [
      | inl twice ↦ rw (f, twice) unchanged
      | inr new ↦
          rw (f, new)
            (with_case-Kept k y.case_id c x _ r e f (record {
              alert_id = refl;
              tenant_id = refl;
              investigator = refl;
              reviewer = λ v q. q;
              version = omega arith;
              more = y ∷ [];
              reviews = refl;
            }))
    ]
  ]

  deleting-Kept : (j : String) → (j == k) ≡ false → Kept k c (delete_case j r).1
  unfolding delete_case
  deleting-Kept j ne = elim (Option-cases (lookup j r.cases)) [
    | inl f ↦ rw f unchanged
    | inr (x, f) ↦ rw f (c, ground (arith, lookup-remove j k r.cases), Grows-refl c)
  ]

  creating-Kept : (a t i d u : String) → (d == k) ≡ false → Kept k c (create_case a t i d u r).1
  creating-Kept a t i d u ne = elim (create_case_cases a t i d u r) [
    | inl same ↦ (c, rw same e, Grows-refl c)
    | inr (x, new) ↦ (c, rw new (ground (arith, lookup-put d k x r.cases)), Grows-refl c)
  ]

module _ (digest : Json → String) (k : String) where
  perform-Kept :
      (o : Operation) (r : Repository) (c : CaseData)
      → lookup k r.cases ≡ some c
      → replaces k o ≡ false
      → Kept k c (perform digest o r)
  unfolding perform audit
  perform-Kept (creating a t i d u) r c e ne = creating-Kept k c r e a t i d u ne
  perform-Kept (deleting j) r c e ne = deleting-Kept k c r e j ne
  perform-Kept (recommending j x) r c e ne = recommending-Kept k c r e j x
  perform-Kept (reviewing x) r c e ne = reviewing-Kept k c r e x
  perform-Kept (assigning j v) r c e ne = assigning-Kept k c r e j v
  perform-Kept (marking j s) r c e ne = marking-Kept k c r e j s
  perform-Kept (auditing x a j p) r c e ne = (c, e, Grows-refl c)

  -- Whatever writing calls follow, as long as none deletes the case or draws its identifier again,
  -- a stored case stays stored, keeps its alert, tenant and investigator, keeps a reviewer that was
  -- assigned, never lowers its recommendation version, and keeps its reviews in front of later ones.
  pub perform_all-Grows :
      (os : List Operation) (r : Repository) (c : CaseData)
      → lookup k r.cases ≡ some c
      → all (λ o. not (replaces k o)) os ≡ true
      → (c' : CaseData) × (lookup k (perform_all digest os r).cases ≡ some c') × Grows c c'
  unfolding perform_all
  perform_all-Grows [] r c e h = (c, e, Grows-refl c)
  perform_all-Grows (o ∷ os) r c e h =
      let (x, ex, gx) = perform-Kept o r c e (ground arith) in
      let (y, ey, gy) = perform_all-Grows os (perform digest o r) x ex (ground arith) in
      (y, ey, Grows-trans gx gy)
