-- ===== src/Graph/Named.antt =====
-- The identifiers that the findings of a recommendation name.
use amlguard_eu_ai_agent.Prelude.{
  String, true, ◌≡◌, refl, ◌↔◌, ◌⊎◌, inl, inr, List, [], ◌∷◌, ◌++◌, map, ◌==◌, eq_iff, arith,
  Bool-cases,
}
use amlguard_eu_ai_agent.Prelude.Lists.{All, any}
use amlguard_eu_ai_agent.Prelude.Members.{Mem, Mem-append, All-from, All-at}
use amlguard_eu_ai_agent.Prelude.Sets.{contains}
use amlguard_eu_ai_agent.Domain.{EvidenceItem, MaterialFinding, Recommendation}
use amlguard_eu_ai_agent.Policy.Models.{PolicyChunk}
use amlguard_eu_ai_agent.Graph.Controls.{policy_ids_of, cited_policies}

-- Every identifier that a finding names is known.
abbrev pub Names : (MaterialFinding → List String) → (String → Type 0) → Recommendation → Type 0
Names ids Known r =
    All (λ f. All Known (ids f)) r.material_findings
    × All (λ f. All Known (ids f)) r.counter_indicators

-- A finding or a counter-indicator of the recommendation names the policy.
abbrev pub CitesPolicy : Recommendation → String → Type 0
CitesPolicy r a =
    (f : MaterialFinding) × (Mem r.material_findings f ⊎ Mem r.counter_indicators f)
    × Mem f.policy_ids a

policy_ids_of_iff :
    (fs : List MaterialFinding) (a : String)
    → Mem (policy_ids_of fs) a ↔ ((f : MaterialFinding) × Mem fs f × Mem f.policy_ids a)
policy_ids_of_iff [] a = (λ m. absurd m, λ m. absurd m.1)
policy_ids_of_iff (f ∷ fs) a = (
  λ m. elim ((Mem-append f.policy_ids (policy_ids_of fs) a).0 m) [
    | inl here ↦ (f, inl refl, here)
    | inr later ↦ let (g, k, n) = (policy_ids_of_iff fs a).0 later in (g, inr k, n)
  ],
  λ (g, k, n).
      (Mem-append f.policy_ids (policy_ids_of fs) a).1
        (elim k [ inl e ↦ inl (rw e n) | inr l ↦ inr ((policy_ids_of_iff fs a).1 (g, l, n)) ]),
)

pub cited_policies_iff :
    (r : Recommendation) (a : String) → Mem (cited_policies r) a ↔ CitesPolicy r a
cited_policies_iff r a = (
  λ m.
      let (f, k, n) = (policy_ids_of_iff (r.material_findings ++ r.counter_indicators) a).0 m in
      (f, (Mem-append r.material_findings r.counter_indicators f).0 k, n),
  λ (f, k, n).
      (policy_ids_of_iff (r.material_findings ++ r.counter_indicators) a).1
        (f, (Mem-append r.material_findings r.counter_indicators f).1 k, n),
)

-- A citation, by the list of identifiers of a finding that names it.
abbrev pub CitesBy : (MaterialFinding → List String) → Recommendation → String → Type 0
CitesBy ids r a =
    (f : MaterialFinding) × (Mem r.material_findings f ⊎ Mem r.counter_indicators f) × Mem (ids f) a

module _ (ids : MaterialFinding → List String) (Known : String → Type 0) (r : Recommendation) where
  pub cited→Names : ((a : String) → CitesBy ids r a → Known a) → Names ids Known r
  cited→Names h = (
    All-from (λ f. All Known (ids f)) r.material_findings
        (λ f m. All-from Known (ids f) (λ a n. h a (f, inl m, n))),
    All-from (λ f. All Known (ids f)) r.counter_indicators
        (λ f m. All-from Known (ids f) (λ a n. h a (f, inr m, n))),
  )

  pub Names→cited : Names ids Known r → (a : String) → CitesBy ids r a → Known a
  Names→cited h a (f, m, n) = All-at Known (ids f) a n (elim m [
    | inl k ↦ All-at (λ g. All Known (ids g)) r.material_findings f k h.0
    | inr k ↦ All-at (λ g. All Known (ids g)) r.counter_indicators f k h.1
  ])

pub any-evidence :
    (es : List EvidenceItem) (a : String)
    → (any (λ e. e.evidence_id == a) es ≡ true)
      ↔ ((e : EvidenceItem) × Mem es e × (e.evidence_id ≡ a))
any-evidence [] a = (λ e. absurd (cc e), λ m. absurd m.1)
any-evidence (e ∷ es) a = (
  λ h. elim (Bool-cases (e.evidence_id == a)) [
    | inl here ↦ (e, inl refl, (eq_iff e.evidence_id a).0 here)
    | inr other ↦ let (f, m, q) = (any-evidence es a).0 (ground (arith, other, h)) in (f, inr m, q)
  ],
  λ (f, m, q). elim m [
    | inl same ↦ rw same (ground (arith, (eq_iff f.evidence_id a).1 q))
    | inr k ↦ ground (arith, (any-evidence es a).1 (f, k, q))
  ],
)

pub contains-policies :
    (cs : List PolicyChunk) (a : String)
    → (contains (map (λ c. c.policy_id) cs) a ≡ true)
      ↔ ((c : PolicyChunk) × Mem cs c × (c.policy_id ≡ a))
contains-policies [] a = (λ e. absurd (cc e), λ m. absurd m.1)
contains-policies (c ∷ cs) a = (
  λ h. elim (Bool-cases (c.policy_id == a)) [
    | inl here ↦ (c, inl refl, (eq_iff c.policy_id a).0 here)
    | inr other ↦
        let (d, m, q) = (contains-policies cs a).0 (ground (arith, other, h)) in (d, inr m, q)
  ],
  λ (d, m, q). elim m [
    | inl same ↦ rw same (ground (arith, (eq_iff d.policy_id a).1 q))
    | inr k ↦ ground (arith, (contains-policies cs a).1 (d, k, q))
  ],
)
