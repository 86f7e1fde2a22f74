-- ===== src/Tools/Postgres/Latest.antt =====
-- The recommendation of a case that has the greatest version.
use amlguard_eu_ai_agent.Prelude.{
  ℕ, String, Bool, true, false, Option, none, some, List, [], ◌∷◌, ◌++◌, ◌<◌, ◌≡◌, refl, ap, arith,
  ◌==◌, ◌=ℕ◌, ◌&&◌, if◌then◌else◌,
}
use amlguard_eu_ai_agent.Prelude.Lists.{any}
use amlguard_eu_ai_agent.Tools.Records.{RecommendationRow}
use amlguard_eu_ai_agent.Tools.Postgres.{
  version_of, newer, latest, recommendations_of, same_version,
}

module _ {P : Type 0} where
  newer-bound :
      (r : RecommendationRow P) (o : Option (RecommendationRow P)) (n : ℕ)
      → (newer r o).version < n
      → (r.version < n) × (version_of o < n)
  newer-bound r none n h = (h, omega arith)
  newer-bound r (some s) n h = ground arith

  newer-last : (r s : RecommendationRow P) → r.version < s.version → newer r (some s) ≡ s
  newer-last r s h = ground arith

  -- A row that is newer than every other is the one that is read.
  pub latest-append :
      (rs : List (RecommendationRow P)) (s : RecommendationRow P)
      → version_of (latest rs) < s.version
      → latest (rs ++ s ∷ []) ≡ some s
  unfolding latest
  latest-append [] s h = refl
  latest-append (r ∷ rs) s h =
      let (first, rest) = newer-bound r (latest rs) s.version h in
      rw (latest-append rs s rest) (ap some (newer-last r s first))

  other_version :
      (b : Bool) (n : ℕ) (r : RecommendationRow P) (rs : List (RecommendationRow P))
      → version_of (latest (if b then r ∷ rs else rs)) < n
      → (version_of (latest rs) < n) × ((b && r.version =ℕ n) ≡ false)
  unfolding latest
  other_version false n r rs h = (h, refl)
  other_version true n r rs h =
      let (first, rest) = newer-bound r (latest rs) n h in (rest, ground (arith, first))

  -- No row of the case has a version above the latest.
  pub any-same_version :
      (k : String) (n : ℕ) (rs : List (RecommendationRow P))
      → version_of (latest (recommendations_of k rs)) < n
      → any (same_version k n) rs ≡ false
  unfolding latest
  any-same_version k n [] h = refl
  any-same_version k n (r ∷ rs) h =
      let (rest, other) = other_version (r.case_id == k) n r (recommendations_of k rs) h in
      rw (other, any-same_version k n rs rest) refl
