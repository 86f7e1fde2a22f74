-- ===== src/Policy/Retrieval/Mapped.antt =====
-- What `search_for_alert` returns: every mapped policy that applies, in the order of the mapping,
-- then keyword matches, within the limit.
use amlguard_eu_ai_agent.Prelude.{
  ℕ, String, Bool, false, ◌≡◌, List, [], ◌∷◌, ◌++◌, map, arith, ok, ◌≤◌, ◌-◌, Option-cases, inl,
  inr, refl, sym, ◌∙◌, ap, Result-cases, none, is_ok, some, true, ◌↔◌, Bool-cases,
}
use amlguard_eu_ai_agent.Prelude.Dict.{Dict, lookup, is_some}
use amlguard_eu_ai_agent.Prelude.Lists.{
  All, select, take, length, length-take-le, length-append, length-map,
}
use amlguard_eu_ai_agent.Prelude.Sets.{contains}
use amlguard_eu_ai_agent.Policy.Models.{
  PolicyChunk, MappedPolicyRule, AlertPolicyMapping, PolicyApplicabilityFact,
}
use amlguard_eu_ai_agent.Policy.Retrieval.{
  PolicyIndex, PolicyMatch, Score, search, search_for_alert, ids_of, mapped_for, mapped_matches,
  contextual_matches, some, eligible_rules, eligible_chunks, search_mapping, Option, leb,
}
use amlguard_eu_ai_agent.Policy.Retrieval.Conditions.{
  Holds, Chosen, Chosen-unique, IsOffered, eligible_rules-Chosen, eligible_chunks-Holds,
}
use amlguard_eu_ai_agent.Policy.Retrieval.Eligible.{
  IsHit, All-take, mapped-All, contextual-All, search-IsHit,
}
use amlguard_eu_ai_agent.Prelude.Members.{Mem, contains_iff, All-members}

mapped_ids :
    (d : Dict PolicyChunk) (always facts : List String) (rs : List MappedPolicyRule)
    → Holds (λ c. Unit) d
    → ids_of (mapped_matches d always facts (select (λ r. is_some (lookup r.policy_id d)) rs))
      ≡ map (λ r. r.policy_id) (select (λ r. is_some (lookup r.policy_id d)) rs)
unfolding mapped_matches
mapped_ids d always facts [] h = refl
mapped_ids d always facts (r ∷ rs) h = elim (Option-cases (lookup r.policy_id d)) [
  | inl e ↦ rw e (mapped_ids d always facts rs h)
  | inr (c, e) ↦ rw e (rw e (cc ((h r.policy_id c e).1, mapped_ids d always facts rs h)))
]

contextual-Fresh :
    (ids : List String) (ps : List (PolicyChunk × Score))
    → All (λ m. ¬ Mem ids m.chunk.policy_id) (contextual_matches ids ps)
unfolding contextual_matches
contextual-Fresh ids [] = tt
contextual-Fresh ids ((c, s) ∷ ps) = elim (Bool-cases (contains ids c.policy_id)) [
  | inl known ↦ rw known (contextual-Fresh ids ps)
  | inr fresh ↦
      rw fresh
        (λ m. ground (arith, fresh, (contains_iff ids c.policy_id).1 m), contextual-Fresh ids ps)
]

module _ (index : PolicyIndex) (query jurisdiction : String) (as_of_date : ℕ)
    (facts : List PolicyApplicabilityFact) (limit : ℕ) where
  -- The parts of a successful retrieval.
  pub record Retrieved (rule_id : String) (ms : List PolicyMatch) : Type 0 where
    pub mapping : AlertPolicyMapping
    pub found : lookup rule_id index.alert_mappings ≡ some mapping
    pub rules : List MappedPolicyRule
    pub chosen : Chosen index jurisdiction as_of_date mapping (map (λ f. f.fact_id) facts) rules
    pub mapped : List PolicyMatch
    pub contextual : List PolicyMatch
    pub split : ms ≡ mapped ++ contextual
    pub complete : ids_of mapped ≡ map (λ r. r.policy_id) rules
    pub offered : All (λ m. IsOffered index jurisdiction as_of_date m.chunk) mapped
    pub hits : List (PolicyChunk × Score)
    pub searched : search index query jurisdiction as_of_date 20 ≡ ok hits
    pub keyword : All (λ m. Mem hits (m.chunk, m.score)) contextual
    pub eligible :
        All (λ m. IsHit index query jurisdiction as_of_date (m.chunk, m.score)) contextual
    pub fresh : All (λ m. ¬ Mem (ids_of mapped) m.chunk.policy_id) contextual
    pub bounded : length ms ≤ limit

  abbrev built_from : AlertPolicyMapping → List (PolicyChunk × Score) → List PolicyMatch
  built_from m ps =
      let mapped = mapped_for index query jurisdiction as_of_date facts limit m in
      mapped ++ take (limit - length mapped) (contextual_matches (ids_of mapped) ps)

  abbrev pub rules_of : AlertPolicyMapping → List MappedPolicyRule
  rules_of m = eligible_rules index jurisdiction as_of_date m (map (λ f. f.fact_id) facts)

  inverted :
      (o : Option AlertPolicyMapping) (ms : List PolicyMatch)
      → search_mapping index query jurisdiction as_of_date facts limit o ≡ ok ms
      → (m : AlertPolicyMapping) × (ps : List (PolicyChunk × Score)) × (o ≡ some m)
        × (length (rules_of m) ≤ limit)
        × (search index query jurisdiction as_of_date 20 ≡ ok ps)
        × (ms ≡ built_from m ps)
  unfolding search_mapping
  inverted none ms h = absurd (cc)
  inverted (some m) ms h = elim (Result-cases (search index query jurisdiction as_of_date 20)) [
    | inr (x, e) ↦ absurd (ground (arith, e))
    | inl (ps, e) ↦ (m, ps, refl, ground (arith, e), e, ground (arith, e))
  ]

  mapped_ids_for :
      (m : AlertPolicyMapping)
      → ids_of (mapped_for index query jurisdiction as_of_date facts limit m)
        ≡ map (λ r. r.policy_id) (rules_of m)
  unfolding mapped_for
  mapped_ids_for m =
      mapped_ids (eligible_chunks index jurisdiction as_of_date) _ _ _
        (λ k c e. (tt, (eligible_chunks-Holds index jurisdiction as_of_date k c e).1))

  mapped_for-IsOffered :
      (m : AlertPolicyMapping)
      → All
          (λ x. IsOffered index jurisdiction as_of_date x.chunk)
          (mapped_for index query jurisdiction as_of_date facts limit m)
  unfolding mapped_for
  mapped_for-IsOffered m =
      mapped-All (IsOffered index jurisdiction as_of_date) _ _ _ _
        (eligible_chunks-Holds index jurisdiction as_of_date)

  length-mapped_for :
      (m : AlertPolicyMapping)
      → length (mapped_for index query jurisdiction as_of_date facts limit m) ≡ length (rules_of m)
  length-mapped_for m =
      sym (length-map (λ (x : PolicyMatch). x.chunk.policy_id) _)
      ∙ ap length (mapped_ids_for m)
      ∙ length-map (λ (r : MappedPolicyRule). r.policy_id) (rules_of m)

  retrieved :
      (rule_id : String) (ms : List PolicyMatch) (m : AlertPolicyMapping)
      (ps : List (PolicyChunk × Score))
      → lookup rule_id index.alert_mappings ≡ some m
      → length (rules_of m) ≤ limit
      → search index query jurisdiction as_of_date 20 ≡ ok ps
      → ms ≡ built_from m ps
      → Retrieved rule_id ms
  retrieved rule_id ms m ps found fits searched built =
      let mapped = mapped_for index query jurisdiction as_of_date facts limit m in
      let more = contextual_matches (ids_of mapped) ps in
      let rest = take (limit - length mapped) more in
      record {
        mapping = m;
        found = found;
        rules = rules_of m;
        chosen = eligible_rules-Chosen index jurisdiction as_of_date m (map (λ f. f.fact_id) facts);
        mapped = mapped;
        contextual = rest;
        split = built;
        complete = mapped_ids_for m;
        offered = mapped_for-IsOffered m;
        hits = ps;
        searched = searched;
        keyword =
            All-take _ (limit - length mapped) more
              (contextual-All (Mem ps) (ids_of mapped) ps (All-members ps));
        eligible = All-take _ (limit - length mapped) more (
            contextual-All (IsHit index query jurisdiction as_of_date) (ids_of mapped) ps
              (search-IsHit index query jurisdiction as_of_date 20 ps searched).0);
        fresh = All-take _ (limit - length mapped) more (contextual-Fresh (ids_of mapped) ps);
        bounded = rw built (
            omega (
              arith,
              length-append {0} mapped rest,
              length-take-le {0} (limit - length mapped) more,
              length-mapped_for m,
            ));
      }

  -- A successful retrieval for an alert found a mapping of its rule. Its result is mapped matches
  -- followed by keyword matches. The mapped matches are, in order, one for each rule of the mapping
  -- that is always selected, or of whose conditions the facts include all that must hold and, if any
  -- is listed, one of which one must hold, and whose policy the index has, approved, of the
  -- jurisdiction, the EU or the international texts, and in force; each is such a chunk. A keyword
  -- match is such a chunk too, with the positive score that a search for twenty chunks gives it, and
  -- no keyword match repeats a mapped policy. There are at most `limit` matches.
  pub search_for_alert-Retrieved :
      (rule_id : String) (ms : List PolicyMatch)
      → search_for_alert index query jurisdiction as_of_date facts limit rule_id ≡ ok ms
      → Retrieved rule_id ms
  unfolding search_for_alert
  search_for_alert-Retrieved rule_id ms h =
      let (m, ps, found, fits, searched, built) =
        inverted (lookup rule_id index.alert_mappings) ms (ground arith) in
      retrieved rule_id ms m ps found fits searched built

  -- The mapping fits in the limit.
  fits_limit : Option AlertPolicyMapping → Bool
  fits_limit none = false
  fits_limit (some m) = leb (length (rules_of m)) limit

  is_ok-search_mapping :
      (o : Option AlertPolicyMapping)
      → is_ok (search_mapping index query jurisdiction as_of_date facts limit o) ≡ fits_limit o
  unfolding search_mapping search fits_limit
  is_ok-search_mapping none = refl
  is_ok-search_mapping (some m) = ground arith

  -- The rules of a mapping that apply are at most as many as the limit.
  abbrev pub Fits : Option AlertPolicyMapping → Type 0
  Fits o =
      (m : AlertPolicyMapping) × (o ≡ some m)
      × (rules : List MappedPolicyRule) × Chosen index jurisdiction as_of_date m
          (map (λ f. f.fact_id) facts) rules
      × (length rules ≤ limit)

  fits_limit_iff : (o : Option AlertPolicyMapping) → (fits_limit o ≡ true) ↔ Fits o
  unfolding fits_limit
  fits_limit_iff none = (λ e. absurd (cc e), λ f. absurd (cc f.1))
  fits_limit_iff (some m) =
      let chosen =
        eligible_rules-Chosen index jurisdiction as_of_date m (map (λ f. f.fact_id) facts) in
      (
        λ e. (m, refl, rules_of m, chosen, ground (arith, e)),
        λ (n, q, rules, other, le).
            let same : m ≡ n = cc q in
            let all : rules_of m ≡ rules =
              Chosen-unique index jurisdiction as_of_date m (map (λ f. f.fact_id) facts)
                (rules_of m) rules chosen (rw same other) in
            let fits : length (rules_of m) ≤ limit = rw all le in ground (arith, fits),
      )

  -- A retrieval for an alert returns, rather than raises, exactly when the limit is between 1 and
  -- 20, the rule has a mapping, and the rules of this mapping that are always selected or whose
  -- conditions the facts meet, and whose policy the index has as an eligible chunk, are at most as
  -- many as the limit.
  pub is_ok-search_for_alert :
      (rule_id : String)
      → (is_ok (search_for_alert index query jurisdiction as_of_date facts limit rule_id) ≡ true)
        ↔ ((1 ≤ limit) × (limit ≤ 20) × Fits (lookup rule_id index.alert_mappings))
  unfolding search_for_alert
  is_ok-search_for_alert rule_id =
      let mapping = lookup rule_id index.alert_mappings in
      (
        λ h. (
          ground (arith, h),
          ground (arith, h),
          (fits_limit_iff mapping).0 (ground (arith, h, is_ok-search_mapping mapping)),
        ),
        λ (low, high, fits).
            ground
              (arith, low, high, (fits_limit_iff mapping).1 fits, is_ok-search_mapping mapping),
      )
