-- ===== src/Tools/Postgres.antt =====
-- src/amlguard/tools/postgres_repository.py: the operations of `PostgresInvestigationRepository` on
-- cases, over the rows of src/amlguard/db/models.py. A payload is a value of the JSON column, of a type `P`;
-- `dump`, `validate` and `digest` are `model_dump`, `model_validate` and the hash of the dump. A
-- foreign key or a unique constraint that a row breaks makes its transaction raise and roll back.
-- `in_session` is `Database.session`.
pub mod Latest
pub mod Saved
pub mod Creation
pub mod Audited
mod Tests
use amlguard_eu_ai_agent.Prelude.{
  ℕ, zero, suc, String, Bool, true, false, Option, none, some, List, [], ◌∷◌, ◌++◌, ◌+◌, ◌&&◌, ◌||◌,
  not, ◌==◌, ◌=ℕ◌, leb, ltb, Result, ok, err, Action, pure, raise, lift, gets, modify, guard, ◌>>=◌,
  ◌>>◌, ◌>>=ᵣ◌, unknown_key, review_already_assigned, external_failure, if◌then◌else◌,
}
use amlguard_eu_ai_agent.Prelude.Dict.{Dict, lookup, put, remove, is_some}
use amlguard_eu_ai_agent.Prelude.Lists.{any, select}
use amlguard_eu_ai_agent.Domain.{
  CaseData, CaseStatus, Recommendation, HumanReview, ReviewAction, validate_review,
}
use amlguard_eu_ai_agent.Governance.AuditChain.{AuditEvent}
use amlguard_eu_ai_agent.Tools.Repository.{is_free_for}
use amlguard_eu_ai_agent.Tools.Records.{CaseRow, RecommendationRow, ReviewRow, Store}

-- `scalar_one()`
abbrev pub required_row : {A : Type 0} → Option A → Result A
required_row none = err unknown_key
required_row (some a) = ok a

module _ {P : Type 0} where
  abbrev pub committed : {A : Type 0} → Store P → Result A × Store P → Result A × Store P
  committed before (ok a, t) = (ok a, t)
  committed before (err e, t) = (err e, before)

  abbrev pub in_session : {A : Type 0} → Action (Store P) A → Action (Store P) A
  in_session m t = committed t (m t)

  abbrev pub version_of : Option (RecommendationRow P) → ℕ
  version_of none = 0
  version_of (some r) = r.version

  abbrev pub newer : RecommendationRow P → Option (RecommendationRow P) → RecommendationRow P
  newer r none = r
  newer r (some s) = if ltb r.version s.version then s else r

  -- ORDER BY version DESC LIMIT 1
  unfoldable pub latest : List (RecommendationRow P) → Option (RecommendationRow P)
  latest [] = none
  latest (r ∷ rs) = some (newer r (latest rs))

  -- ORDER BY reviewed_at
  unfoldable pub insert_review : ReviewRow P → List (ReviewRow P) → List (ReviewRow P)
  insert_review r [] = r ∷ []
  insert_review r (s ∷ rs) =
      let rest = insert_review r rs in
      if leb r.reviewed_at s.reviewed_at then r ∷ s ∷ rs else s ∷ rest

  unfoldable pub sort_reviews : List (ReviewRow P) → List (ReviewRow P)
  unfolding insert_review
  sort_reviews [] = []
  sort_reviews (r ∷ rs) = insert_review r (sort_reviews rs)

  -- The rows of a case.
  abbrev pub recommendations_of : String → List (RecommendationRow P) → List (RecommendationRow P)
  recommendations_of k = select (λ r. r.case_id == k)

  abbrev pub reviews_of : String → List (ReviewRow P) → List (ReviewRow P)
  reviews_of k = select (λ r. r.case_id == k)

  -- `latest or 0`, where `latest` is the version that is read.
  abbrev pub last_version : String → Store P → ℕ
  last_version k t = version_of (latest (recommendations_of k t.recommendations))

  -- UNIQUE(case_id, version)
  abbrev pub same_version : String → ℕ → RecommendationRow P → Bool
  same_version k v r = r.case_id == k && r.version =ℕ v

  -- The primary key, and UNIQUE(case_id, recommendation_version)
  abbrev pub same_review : String → HumanReview → ReviewRow P → Bool
  same_review review_id v r =
      r.id == review_id
      || r.case_id == v.case_id && r.recommendation_version =ℕ v.recommendation_version

  unfoldable pub delete_case : String → Action (Store P) Unit
  unfolding lookup remove
  delete_case k = in_session do
    known ← gets (λ t. is_some (lookup k t.cases))
    guard known unknown_key
    modify λ t. record t {
      human_reviews = select (λ r. not (r.case_id == k)) t.human_reviews;
      recommendations = select (λ r. not (r.case_id == k)) t.recommendations;
      authorized_resources = select (λ r. not (r.case_id == k)) t.authorized_resources;
      cases = remove k t.cases;
    }

  abbrev pub with_row : String → CaseRow → Store P → Store P
  with_row k row t = record t { cases = put k row t.cases }

  unfoldable pub assign_reviewer : (now : ℕ) (case_id reviewer_id : String) → Action (Store P) Unit
  unfolding lookup put
  assign_reviewer now k reviewer_id = in_session do
    row ← λ t. (required_row (lookup k t.cases), t)
    guard (is_free_for reviewer_id row.assigned_reviewer_id) review_already_assigned
    modify (with_row k (record row { assigned_reviewer_id = some reviewer_id; updated_at = now }))

  unfoldable pub set_status : (now : ℕ) (case_id : String) → CaseStatus → Action (Store P) Unit
  unfolding lookup put
  set_status now k status = in_session do
    row ← λ t. (required_row (lookup k t.cases), t)
    modify (with_row k (record row { status = status; updated_at = now }))

module _ {P : Type 0} (validate : P → Result Recommendation) where
  abbrev pub validated : Option P → Result (Option Recommendation)
  validated none = ok none
  validated (some p) = validate p >>=ᵣ λ r. ok (some r)

  abbrev pub recommendation_of : Option (RecommendationRow P) → Result (Option Recommendation)
  recommendation_of none = ok none
  recommendation_of (some row) = validate row.payload >>=ᵣ λ r. ok (some r)

  abbrev pub review_of : String → ReviewRow P → Result HumanReview
  review_of k row = validated row.edited_payload >>=ᵣ λ edited. validate_review record {
    case_id = k;
    recommendation_version = row.recommendation_version;
    action = row.action;
    reviewer_id = row.reviewer_id;
    rationale = row.rationale;
    edited_recommendation = edited;
  }

  unfoldable pub reviews : String → List (ReviewRow P) → Result (List HumanReview)
  unfolding validate_review
  reviews k [] = ok []
  reviews k (row ∷ rows) = review_of k row >>=ᵣ λ v. reviews k rows >>=ᵣ λ vs. ok (v ∷ vs)

  abbrev pub as_case :
      String
      → CaseRow
      → (alert customer : String) → Option Recommendation
      → ℕ
      → List HumanReview
      → CaseData
  as_case k row alert customer recommendation version given = record {
    case_id = k;
    run_id = k;
    alert_id = alert;
    customer_id = customer;
    tenant_id = row.tenant_id;
    assigned_investigator_id = row.assigned_investigator_id;
    assigned_reviewer_id = row.assigned_reviewer_id;
    status = row.status;
    recommendation = recommendation;
    recommendation_version = version;
    reviews = given;
  }

  -- `CaseData(...)` of the rows that were read.
  abbrev pub assembled :
      String
      → CaseRow
      → (alert customer : String) → Option (RecommendationRow P)
      → List (ReviewRow P)
      → Result CaseData
  assembled k row alert customer newest rows = recommendation_of newest >>=ᵣ λ r.
      reviews k rows >>=ᵣ λ vs. ok (as_case k row alert customer r (version_of newest) vs)

  abbrev pub case_data : String → Store P → CaseRow → Result CaseData
  case_data k t row = required_row (lookup row.alert_id t.alerts) >>=ᵣ λ alert.
      required_row (lookup row.customer_id t.customers) >>=ᵣ λ customer.
      assembled k row alert.alert_ref customer (latest (recommendations_of k t.recommendations))
        (sort_reviews (reviews_of k t.human_reviews))

  unfoldable pub get_case : String → Action (Store P) CaseData
  unfolding lookup latest sort_reviews reviews
  get_case k t = (required_row (lookup k t.cases) >>=ᵣ case_data k t, t)

module _ {P : Type 0} (dump : Recommendation → P) (digest : P → String) where
  abbrev pub new_recommendation : String → ℕ → Recommendation → RecommendationRow P
  new_recommendation k version x = record {
    case_id = k;
    version = version;
    payload = dump x;
    content_hash = digest (dump x);
  }

  abbrev pub is_refused : String → ℕ → Store P → Bool
  is_refused k version t =
      not (is_some (lookup k t.cases)) || any (same_version k version) t.recommendations

  unfoldable pub save_recommendation : String → Recommendation → Action (Store P) ℕ
  unfolding lookup latest
  save_recommendation k x = in_session do
    newest ← gets (λ t. latest (recommendations_of k t.recommendations))
    let version = version_of newest + 1
    refused ← gets (is_refused k version)
    guard (not refused) external_failure
    modify
        λ t. record t { recommendations = t.recommendations ++ new_recommendation k version x ∷ [] }
    pure version

  abbrev pub edited_dump : Option Recommendation → Option P
  edited_dump none = none
  edited_dump (some x) = some (dump x)

  unfoldable pub save_review :
      (review_id : String) (reviewed_at : ℕ) → HumanReview → Action (Store P) Unit
  unfolding lookup
  save_review review_id reviewed_at v = in_session do
    known ← gets (λ t. is_some (lookup v.case_id t.cases))
    taken ← gets (λ t. any (same_review review_id v) t.human_reviews)
    guard (known && not taken) external_failure
    modify λ t. record t {
      human_reviews =
          t.human_reviews
          ++ record {
            id = review_id;
            case_id = v.case_id;
            recommendation_version = v.recommendation_version;
            action = v.action;
            reviewer_id = v.reviewer_id;
            rationale = v.rationale;
            edited_payload = edited_dump v.edited_recommendation;
            reviewed_at = reviewed_at;
          }
            ∷ [];
    }
