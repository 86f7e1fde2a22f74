-- ===== src/Policy/Retrieval/Conditions.antt =====
-- When a policy and a rule of a mapping apply, and what the tests of src/amlguard/policy/retrieval.py
-- say of it.
use amlguard_eu_ai_agent.Prelude.{
  ℕ, String, true, ◌≡◌, refl, sym, List, [], ◌∷◌, ◌++◌, ◌==◌, ◌||◌, Option, none, some, ◌≤◌, ◌↔◌,
  ◌⊎◌, inl, inr, arith, eq_iff, Bool-cases, Option-cases, subst,
}
use amlguard_eu_ai_agent.Prelude.Dict.{Dict, lookup, put, lookup-put, is_some}
use amlguard_eu_ai_agent.Prelude.Lists.{All, All-select, any, select}
use amlguard_eu_ai_agent.Prelude.Members.{
  Mem, Sifted, Sifted-unique, select-Sifted, Mem-select, contains_iff, subset_iff, meets_iff,
  All-members, All-kept, All-both, All-weaken,
}
use amlguard_eu_ai_agent.Prelude.Sets.{contains}
use amlguard_eu_ai_agent.Policy.Models.{PolicyChunk, MappedPolicyRule, AlertPolicyMapping}
use amlguard_eu_ai_agent.Policy.Retrieval.{
  PolicyIndex, is_eligible, not_before, not_after, rule_applies, none_of, chunks_by_id,
  eligible_chunks, eligible_rules,
}

-- The chunk is approved, belongs to the jurisdiction, to the EU or to the international texts, and
-- is in force at the date.
pub record IsEligible (jurisdiction : String) (date : ℕ) (c : PolicyChunk) : Type 0 where
  pub approved : c.approved ≡ true
  pub place : (c.jurisdiction ≡ jurisdiction) ⊎ (c.jurisdiction ≡ "EU") ⊎ (c.jurisdiction ≡ "INTL")
  pub begun :
      (c.effective_from ≡ none) ⊎ ((from : ℕ) × (c.effective_from ≡ some from) × (from ≤ date))
  pub lasting : (c.effective_to ≡ none) ⊎ ((to : ℕ) × (c.effective_to ≡ some to) × (date ≤ to))

not_before_iff :
    (o : Option ℕ) (d : ℕ)
    → (not_before o d ≡ true) ↔ ((o ≡ none) ⊎ ((n : ℕ) × (o ≡ some n) × (n ≤ d)))
not_before_iff none d = (λ e. inl refl, λ m. refl)
not_before_iff (some n) d = (
  λ e. inr (n, refl, ground (arith, e)),
  λ m. elim m [
    | inl q ↦ absurd (cc q)
    | inr (k, q, le) ↦ let same : n ≡ k = cc q in rw same (ground (arith, le))
  ],
)

not_after_iff :
    (o : Option ℕ) (d : ℕ)
    → (not_after o d ≡ true) ↔ ((o ≡ none) ⊎ ((n : ℕ) × (o ≡ some n) × (d ≤ n)))
not_after_iff none d = (λ e. inl refl, λ m. refl)
not_after_iff (some n) d = (
  λ e. inr (n, refl, ground (arith, e)),
  λ m. elim m [
    | inl q ↦ absurd (cc q)
    | inr (k, q, le) ↦ let same : n ≡ k = cc q in rw same (ground (arith, le))
  ],
)

place_iff :
    (j k : String)
    → (contains (j ∷ "EU" ∷ "INTL" ∷ []) k ≡ true) ↔ ((k ≡ j) ⊎ (k ≡ "EU") ⊎ (k ≡ "INTL"))
place_iff j k = (
  λ e. elim ((contains_iff (j ∷ "EU" ∷ "INTL" ∷ []) k).0 e) [
    | inl q ↦ inl (sym q)
    | inr m ↦ elim m [
      | inl q ↦ inr (inl (sym q))
      | inr n ↦ elim n [ inl q ↦ inr (inr (sym q)) | inr z ↦ absurd z ]
    ]
  ],
  λ m. (contains_iff (j ∷ "EU" ∷ "INTL" ∷ []) k).1 (elim m [
    | inl q ↦ inl (sym q)
    | inr n ↦ elim n [ inl q ↦ inr (inl (sym q)) | inr q ↦ inr (inr (inl (sym q))) ]
  ]),
)

pub is_eligible_iff :
    (jurisdiction : String) (date : ℕ) (c : PolicyChunk)
    → (is_eligible jurisdiction date c ≡ true) ↔ IsEligible jurisdiction date c
unfolding is_eligible
is_eligible_iff jurisdiction date c =
    let placed = place_iff jurisdiction c.jurisdiction in
    let begun = not_before_iff c.effective_from date in
    let lasting = not_after_iff c.effective_to date in
    (
      λ h. record {
        approved = ground (arith, h);
        place = placed.0 (ground (arith, h));
        begun = begun.0 (ground (arith, h));
        lasting = lasting.0 (ground (arith, h));
      },
      λ e. ground (arith, e.approved, placed.1 e.place, begun.1 e.begun, lasting.1 e.lasting),
    )

-- The facts include all that the rule wants, and some of those of which it wants one.
abbrev pub Meets : List String → MappedPolicyRule → Type 0
Meets facts r =
    All (Mem facts) r.when_all
    × ((r.when_any ≡ []) ⊎ ((a : String) × Mem r.when_any a × Mem facts a))

none_of_iff : (xs : List String) → (none_of xs ≡ true) ↔ (xs ≡ [])
none_of_iff [] = (λ e. refl, λ e. refl)
none_of_iff (x ∷ xs) = (λ e. absurd (cc e), λ e. absurd (cc e))

pub rule_applies_iff :
    (facts : List String) (r : MappedPolicyRule) → (rule_applies facts r ≡ true) ↔ Meets facts r
unfolding rule_applies
rule_applies_iff facts r = (
  λ h. (
    (subset_iff r.when_all facts).0 (ground (arith, h)),
    elim (Bool-cases (none_of r.when_any)) [
      | inl free ↦ inl ((none_of_iff r.when_any).0 free)
      | inr bound ↦ inr ((meets_iff r.when_any facts).0 (ground (arith, h, bound)))
    ],
  ),
  λ m.
      let all = (subset_iff r.when_all facts).1 m.0 in
      elim m.1 [
        | inl free ↦ ground (arith, all, (none_of_iff r.when_any).1 free)
        | inr some_met ↦ ground (arith, all, (meets_iff r.when_any facts).1 some_met)
      ],
)

lookup-chunks_by_id :
    (k : String) (cs : List PolicyChunk) (d : Dict PolicyChunk)
    → is_some (lookup k (chunks_by_id cs d))
      ≡ (any (λ c. c.policy_id == k) cs || is_some (lookup k d))
unfolding chunks_by_id
lookup-chunks_by_id k [] d = refl
lookup-chunks_by_id k (c ∷ cs) d =
    ground (arith, lookup-chunks_by_id k cs (put c.policy_id c d), lookup-put c.policy_id k c d)

any-policy :
    (k : String) (cs : List PolicyChunk) (c : PolicyChunk)
    → Mem cs c
    → c.policy_id ≡ k
    → any (λ x. x.policy_id == k) cs ≡ true
any-policy k [] c m e = absurd m
any-policy k (x ∷ xs) c m e = elim m [
  | inl same ↦ rw same (ground (arith, (eq_iff c.policy_id k).1 e))
  | inr n ↦ ground (arith, any-policy k xs c n e)
]

module _ (P : PolicyChunk → Type 0) where
  -- Every chunk of a dictionary satisfies `P` and has its key as identifier.
  abbrev pub Holds : Dict PolicyChunk → Type 0
  Holds d = (k : String) (c : PolicyChunk) → lookup k d ≡ some c → P c × (c.policy_id ≡ k)

  pub chunks_by_id-Holds :
      (cs : List PolicyChunk) (d : Dict PolicyChunk)
      → All P cs
      → Holds d
      → Holds (chunks_by_id cs d)
  unfolding chunks_by_id
  chunks_by_id-Holds [] d h hd = hd
  chunks_by_id-Holds (c ∷ cs) d h hd =
      chunks_by_id-Holds cs (put c.policy_id c d) h.1
        λ k x e. ground (arith, lookup-put c.policy_id k c d, eq_iff c.policy_id k, hd k x, h.0)

module _ (index : PolicyIndex) (jurisdiction : String) (date : ℕ) where
  -- A chunk of the index that is eligible.
  abbrev pub IsOffered : PolicyChunk → Type 0
  IsOffered c = Mem index.chunks c × IsEligible jurisdiction date c

  -- The policy of the rule is offered.
  abbrev pub HasPolicy : MappedPolicyRule → Type 0
  HasPolicy r = (c : PolicyChunk) × IsOffered c × (c.policy_id ≡ r.policy_id)

  -- The rules of the mapping that apply, in order: those always selected and those whose conditions
  -- the facts meet, where their policies are offered.
  pub record Chosen (m : AlertPolicyMapping) (facts : List String) (rules : List MappedPolicyRule)
      : Type 0 where
    pub conditional : List MappedPolicyRule
    pub conditions_met : Sifted (Meets facts) m.conditional_policy_rules conditional
    pub with_policy : Sifted HasPolicy (m.always_policy_rules ++ conditional) rules

  pub select-IsOffered : All IsOffered (select (is_eligible jurisdiction date) index.chunks)
  select-IsOffered =
      All-weaken _ IsOffered (select (is_eligible jurisdiction date) index.chunks)
        (λ c (m, e). (m, (is_eligible_iff jurisdiction date c).0 e))
        (All-both (Mem index.chunks) (λ c. is_eligible jurisdiction date c ≡ true)
          (select (is_eligible jurisdiction date) index.chunks)
          (All-kept (Mem index.chunks) (is_eligible jurisdiction date) index.chunks
            (All-members index.chunks))
          (All-select (λ c. is_eligible jurisdiction date c ≡ true) (is_eligible jurisdiction date)
            index.chunks (λ c e. e)))

  pub eligible_chunks-Holds : Holds IsOffered (eligible_chunks index jurisdiction date)
  unfolding lookup
  eligible_chunks-Holds =
      chunks_by_id-Holds IsOffered (select (is_eligible jurisdiction date) index.chunks) []
        select-IsOffered (λ k c e. cc)

  pub is_some-HasPolicy :
      (r : MappedPolicyRule)
      → (is_some (lookup r.policy_id (eligible_chunks index jurisdiction date)) ≡ true)
        ↔ HasPolicy r
  is_some-HasPolicy r = (
    λ h. elim (Option-cases (lookup r.policy_id (eligible_chunks index jurisdiction date))) [
      | inl e ↦ absurd (ground (arith, h, e))
      | inr (c, e) ↦
          let (offered, same) = eligible_chunks-Holds r.policy_id c e in (c, offered, same)
    ],
    λ (c, (m, e), same). ground (
      arith,
      lookup-chunks_by_id r.policy_id (select (is_eligible jurisdiction date) index.chunks) [],
      any-policy r.policy_id (select (is_eligible jurisdiction date) index.chunks) c
          (Mem-select (is_eligible jurisdiction date) index.chunks c m
            ((is_eligible_iff jurisdiction date c).1 e))
          same,
    ),
  )

  pub eligible_rules-Chosen :
      (m : AlertPolicyMapping) (facts : List String)
      → Chosen m facts (eligible_rules index jurisdiction date m facts)
  eligible_rules-Chosen m facts = record {
    conditional = select (rule_applies facts) m.conditional_policy_rules;
    conditions_met =
        select-Sifted (Meets facts) (rule_applies facts) m.conditional_policy_rules
          (rule_applies_iff facts);
    with_policy =
        select-Sifted HasPolicy
          (λ r. is_some (lookup r.policy_id (eligible_chunks index jurisdiction date)))
          (m.always_policy_rules ++ select (rule_applies facts) m.conditional_policy_rules)
          is_some-HasPolicy;
  }

  pub Chosen-unique :
      (m : AlertPolicyMapping) (facts : List String) (rs ss : List MappedPolicyRule)
      → Chosen m facts rs
      → Chosen m facts ss
      → rs ≡ ss
  Chosen-unique m facts rs ss c d =
      let same : c.conditional ≡ d.conditional =
        Sifted-unique (Meets facts) m.conditional_policy_rules c.conditional d.conditional
          c.conditions_met d.conditions_met in
      Sifted-unique HasPolicy (m.always_policy_rules ++ d.conditional) rs ss
        (subst (λ x. Sifted HasPolicy (m.always_policy_rules ++ x) rs) same c.with_policy)
        d.with_policy
