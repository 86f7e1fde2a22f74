-- ===== src/Policy/Retrieval/Eligible.antt =====
-- Everything that the retrieval returns passed the filter: approved, of the jurisdiction, in force.
use amlguard_eu_ai_agent.Prelude.{
  ℕ, String, ◌≡◌, List, [], ◌∷◌, zero, suc, arith, Option-cases, inl, inr, Bool-cases, ◌≤◌, leb,
}
use amlguard_eu_ai_agent.Prelude.Dict.{Dict, lookup}
use amlguard_eu_ai_agent.Prelude.Lists.{All, select, take, length, length-take-le}
use amlguard_eu_ai_agent.Policy.Models.{PolicyChunk, MappedPolicyRule}
use amlguard_eu_ai_agent.Policy.Retrieval.{
  PolicyIndex, Score, is_eligible, search, insert_scored, scored, score_of, ok, mapped_matches,
  contextual_matches, sort_scored, words, codes, limit_is_valid,
}
use amlguard_eu_ai_agent.Policy.Retrieval.Conditions.{Holds, IsOffered, select-IsOffered}

pub All-take {ℓ κ} :
    {A : Type ℓ} (P : A → Type κ) (n : ℕ) (xs : List A) → All P xs → All P (take n xs)
All-take P zero xs h = tt
All-take P (suc n) [] h = tt
All-take P (suc n) (x ∷ xs) h = (h.0, All-take P n xs h.1)

module _ (Q : PolicyChunk × Score → Type 0) where
  scored-All :
      (P : PolicyChunk → Type 0) (tokens : List (List ℕ)) (cs : List PolicyChunk)
      → ((c : PolicyChunk) (s : Score) → P c → 1 ≤ s.hits → Q (c, s))
      → All P cs
      → All Q (scored tokens cs)
  unfolding scored
  scored-All P tokens [] f h = tt
  scored-All P tokens (c ∷ cs) f h = elim (Bool-cases (leb 1 (score_of tokens c).hits)) [
    | inl hit ↦
        rw hit (f c (score_of tokens c) h.0 (ground (arith, hit)), scored-All P tokens cs f h.1)
    | inr miss ↦ rw miss (scored-All P tokens cs f h.1)
  ]

  insert_scored-All :
      (p : PolicyChunk × Score) (ps : List (PolicyChunk × Score))
      → Q p
      → All Q ps
      → All Q (insert_scored p ps)
  unfolding insert_scored
  insert_scored-All p [] hp h = (hp, tt)
  insert_scored-All p (q ∷ qs) hp h = ground (arith, insert_scored-All p qs hp h.1)

  sort_scored-All : (ps : List (PolicyChunk × Score)) → All Q ps → All Q (sort_scored ps)
  unfolding sort_scored
  sort_scored-All [] h = tt
  sort_scored-All (p ∷ ps) h = insert_scored-All p (sort_scored ps) h.0 (sort_scored-All ps h.1)

  pub contextual-All :
      (ids : List String) (ps : List (PolicyChunk × Score))
      → All Q ps
      → All (λ m. Q (m.chunk, m.score)) (contextual_matches ids ps)
  unfolding contextual_matches
  contextual-All ids [] h = tt
  contextual-All ids ((c, s) ∷ ps) h = ground (arith, contextual-All ids ps h.1)

module _ (P : PolicyChunk → Type 0) where
  pub mapped-All :
      (d : Dict PolicyChunk) (always facts : List String) (rs : List MappedPolicyRule)
      → Holds P d
      → All (λ m. P m.chunk) (mapped_matches d always facts rs)
  unfolding mapped_matches
  mapped-All d always facts [] h = tt
  mapped-All d always facts (r ∷ rs) h = elim (Option-cases (lookup r.policy_id d)) [
    | inl e ↦ rw e (mapped-All d always facts rs h)
    | inr (c, e) ↦ rw e ((h r.policy_id c e).0, mapped-All d always facts rs h)
  ]

module _ (index : PolicyIndex) (query jurisdiction : String) (date : ℕ) where
  -- A chunk of the index that is eligible, and shares a word with the query.
  abbrev pub IsHit : PolicyChunk × Score → Type 0
  IsHit p = IsOffered index jurisdiction date p.0 × (1 ≤ p.1.hits)

  pub search-IsHit :
      (limit : ℕ) (ps : List (PolicyChunk × Score))
      → search index query jurisdiction date limit ≡ ok ps
      → All IsHit ps × (length ps ≤ limit) × (1 ≤ limit) × (limit ≤ 20)
  unfolding search
  search-IsHit limit ps h =
      let eligible = select (is_eligible jurisdiction date) index.chunks in
      let found = sort_scored (scored (words (codes query)) eligible) in
      let all = sort_scored-All IsHit (scored (words (codes query)) eligible) (
        scored-All IsHit (IsOffered index jurisdiction date) (words (codes query)) eligible
          (λ c s offered hit. (offered, hit)) (select-IsOffered index jurisdiction date)) in
      elim (Bool-cases (limit_is_valid limit)) [
        | inr e ↦ absurd (ground (arith, e))
        | inl e ↦
            let same : take limit found ≡ ps = ground (arith, e) in
            rw⁻¹ same (
              All-take IsHit limit found all,
              length-take-le {0} limit found,
              ground (arith, e),
              ground (arith, e),
            )
      ]
