-- ===== src/Tools/Postgres/Saved.antt =====
-- What `get_case` reads of a case after `save_recommendation`.
use mathlib.Core.List.{append-nil}
use amlguard_eu_ai_agent.Prelude.{
  ℕ, String, false, Option, none, some, List, [], ◌∷◌, ◌++◌, ◌+◌, ◌<◌, ◌≡◌, refl, subst, ap, arith,
  ◌==◌, eq_refl, Result, ok, err, ◌>>=ᵣ◌,
}
use amlguard_eu_ai_agent.Prelude.Dict.{lookup}
use amlguard_eu_ai_agent.Prelude.Lists.{select-append}
use amlguard_eu_ai_agent.Domain.{CaseData, Recommendation, HumanReview}
use amlguard_eu_ai_agent.Tools.Postgres.Latest.{latest-append, any-same_version}
use amlguard_eu_ai_agent.Tools.Records.{AlertRow, CaseRow, Store}
use amlguard_eu_ai_agent.Tools.Postgres.{
  last_version, required_row, latest, recommendations_of, reviews_of, recommendation_of, reviews,
  as_case, assembled, get_case, new_recommendation, save_recommendation, sort_reviews,
}

ok_bind :
    {A B : Type 0} (r : Result A) (f : A → Result B) (b : B)
    → (r >>=ᵣ f) ≡ ok b
    → (a : A) × ((r ≡ ok a) × (f a ≡ ok b))
ok_bind (ok a) f b h = (a, (refl, h))
ok_bind (err e) f b h = absurd (cc h)

found_row : {A : Type 0} (o : Option A) (a : A) → required_row o ≡ ok a → o ≡ some a
found_row none a h = absurd (cc h)
found_row (some x) a h = cc h

module _ {P : Type 0} where
  module _ (validate : P → Result Recommendation) (k : String) where
    -- What a case that is read was assembled from.
    pub record Read (t : Store P) (c : CaseData) : Type 0 where
      pub row : CaseRow
      pub alert : AlertRow
      pub customer : String
      pub old : Option Recommendation
      pub given : List HumanReview
      pub row_stored : lookup k t.cases ≡ some row
      pub alert_stored : lookup row.alert_id t.alerts ≡ some alert
      pub customer_stored : lookup row.customer_id t.customers ≡ some customer
      pub reviews_read : reviews validate k (sort_reviews (reviews_of k t.human_reviews)) ≡ ok given
      pub same : as_case validate k row alert.alert_ref customer old (last_version k t) given ≡ c

    get_case-Read : (t : Store P) (c : CaseData) → (get_case validate k t).0 ≡ ok c → Read t c
    unfolding get_case
    get_case-Read t c h =
        let (row, (e, h)) = ok_bind (required_row (lookup k t.cases)) _ c h in
        let (alert, (ea, h)) = ok_bind (required_row (lookup row.alert_id t.alerts)) _ c h in
        let (customer, (ec, h)) =
          ok_bind (required_row (lookup row.customer_id t.customers)) _ c h in
        let (old, (eo, h)) =
          ok_bind (recommendation_of validate (latest (recommendations_of k t.recommendations))) _ c
            h in
        let (given, (er, h)) =
          ok_bind (reviews validate k (sort_reviews (reviews_of k t.human_reviews))) _ c h in
        record {
          row = row;
          alert = alert;
          customer = customer;
          old = old;
          given = given;
          row_stored = found_row _ row e;
          alert_stored = found_row _ alert ea;
          customer_stored = found_row _ customer ec;
          reviews_read = er;
          same = cc h;
        }

  module _ (validate : P → Result Recommendation) (dump : Recommendation → P) (digest : P → String)
      (k : String) (x : Recommendation) where
    -- The tables behind a recommendation that is saved with a version.
    abbrev pub written : ℕ → Store P → Store P
    written version t = record t {
      recommendations = t.recommendations ++ new_recommendation dump digest k version x ∷ [];
    }

    save_recommendation-written :
        (t : Store P) (row : CaseRow)
        → lookup k t.cases ≡ some row
        → save_recommendation dump digest k x t
          ≡ (ok (last_version k t + 1), written (last_version k t + 1) t)
    unfolding save_recommendation
    save_recommendation-written t row h =
        rw (h, any-same_version k (last_version k t + 1) t.recommendations (omega arith)) refl

    latest-written :
        (t : Store P) (n : ℕ)
        → last_version k t < n
        → latest (recommendations_of k (written n t).recommendations)
          ≡ some (new_recommendation dump digest k n x)
    latest-written t n h =
        rw
          (
            select-append (λ r. r.case_id == k) t.recommendations
                (new_recommendation dump digest k n x ∷ []),
            eq_refl k,
          )
          (latest-append (recommendations_of k t.recommendations)
            (new_recommendation dump digest k n x) h)

    get_case-written :
        (t : Store P) (c : CaseData)
        → validate (dump x) ≡ ok x
        → Read validate k t c
        → (get_case validate k (written (last_version k t + 1) t)).0
          ≡ ok (record c {
            recommendation = some x;
            recommendation_version = c.recommendation_version + 1;
          })
    unfolding get_case
    get_case-written t c valid g =
        rw
          (
            g.row_stored,
            g.alert_stored,
            g.customer_stored,
            latest-written t (last_version k t + 1) (omega arith),
            valid,
            g.reviews_read,
          )
          (subst
            (λ (y : CaseData).
              ok (
                as_case validate k g.row g.alert.alert_ref g.customer (some x)
                  (last_version k t + 1) g.given)
              ≡ ok (record y {
                recommendation = some x;
                recommendation_version = y.recommendation_version + 1;
              }))
            g.same refl)

    rows_elsewhere :
        (t : Store P) (n : ℕ) (j : String)
        → (k == j) ≡ false
        → recommendations_of j (written n t).recommendations
          ≡ recommendations_of j t.recommendations
    rows_elsewhere t n j h =
        rw
          (
            select-append (λ r. r.case_id == j) t.recommendations
                (new_recommendation dump digest k n x ∷ []),
            h,
          )
          (append-nil (recommendations_of j t.recommendations))

    get_case_elsewhere :
        (t : Store P) (n : ℕ) (j : String)
        → (k == j) ≡ false
        → (get_case validate j (written n t)).0 ≡ (get_case validate j t).0
    unfolding get_case
    get_case_elsewhere t n j h =
        ap
          (λ rs. required_row (lookup j t.cases) >>=ᵣ λ row.
            required_row (lookup row.alert_id t.alerts) >>=ᵣ λ alert.
            required_row (lookup row.customer_id t.customers) >>=ᵣ λ customer.
            assembled validate j row alert.alert_ref customer (latest rs)
              (sort_reviews (reviews_of j t.human_reviews)))
          (rows_elsewhere t n j h)

    -- Where a case can be read from the tables and the validation of a recommendation's dump gives
    -- the recommendation back, save_recommendation returns, with the version of the case plus one;
    -- get_case then reads the case with this recommendation and this version and otherwise as it
    -- was, and every case of another identifier is read as before.
    pub save_recommendation-get_case :
        (t : Store P) (c : CaseData) (j : String)
        → validate (dump x) ≡ ok x
        → (get_case validate k t).0 ≡ ok c
        → (k == j) ≡ false
        → let (saved, t') = save_recommendation dump digest k x t in
          (saved ≡ ok (c.recommendation_version + 1))
          × ((get_case validate k t').0
              ≡ ok (record c {
                recommendation = some x;
                recommendation_version = c.recommendation_version + 1;
              }))
          × ((get_case validate j t').0 ≡ (get_case validate j t).0)
    save_recommendation-get_case t c j valid h other =
        let g = get_case-Read validate k t c h in
        rw (save_recommendation-written t g.row g.row_stored) (
          ap (λ (y : CaseData). ok (y.recommendation_version + 1)) g.same,
          get_case-written t c valid g,
          get_case_elsewhere t (last_version k t + 1) j other,
        )
