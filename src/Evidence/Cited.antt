-- ===== src/Evidence/Cited.antt =====
-- What `EvidenceLedger.validate_recommendation` of src/amlguard/evidence/ledger.py reports.
use amlguard_eu_ai_agent.Prelude.{
  String, true, false, ◌≡◌, refl, ◌↔◌, ◌⊎◌, inl, inr, Option, none, some, List, [], ◌∷◌, ◌++◌, not,
  ◌&&◌, arith,
}
use amlguard_eu_ai_agent.Prelude.Dict.{lookup, is_some}
use amlguard_eu_ai_agent.Prelude.Members.{Mem, Mem-append, contains_iff}
use amlguard_eu_ai_agent.Prelude.Sets.{contains}
use amlguard_eu_ai_agent.Domain.{MaterialFinding, Recommendation}
use amlguard_eu_ai_agent.Evidence.{Ledger, evidence_ids_of, cited_evidence, validate_citations}
use amlguard_eu_ai_agent.Evidence.Citations.{contains-validate_citations}

-- A material finding or a counter-indicator of the recommendation names the identifier.
abbrev pub Cites : Recommendation → String → Type 0
Cites r a =
    (f : MaterialFinding) × (Mem r.material_findings f ⊎ Mem r.counter_indicators f)
    × Mem f.evidence_ids a

evidence_ids_of_iff :
    (fs : List MaterialFinding) (a : String)
    → Mem (evidence_ids_of fs) a ↔ ((f : MaterialFinding) × Mem fs f × Mem f.evidence_ids a)
evidence_ids_of_iff [] a = (λ m. absurd m, λ m. absurd m.1)
evidence_ids_of_iff (f ∷ fs) a = (
  λ m. elim ((Mem-append f.evidence_ids (evidence_ids_of fs) a).0 m) [
    | inl here ↦ (f, inl refl, here)
    | inr later ↦ let (g, k, n) = (evidence_ids_of_iff fs a).0 later in (g, inr k, n)
  ],
  λ (g, k, n).
      (Mem-append f.evidence_ids (evidence_ids_of fs) a).1
        (elim k [ inl e ↦ inl (rw e n) | inr l ↦ inr ((evidence_ids_of_iff fs a).1 (g, l, n)) ]),
)

pub cited_evidence_iff : (r : Recommendation) (a : String) → Mem (cited_evidence r) a ↔ Cites r a
cited_evidence_iff r a = (
  λ m.
      let (f, k, n) = (evidence_ids_of_iff (r.material_findings ++ r.counter_indicators) a).0 m in
      (f, (Mem-append r.material_findings r.counter_indicators f).0 k, n),
  λ (f, k, n).
      (evidence_ids_of_iff (r.material_findings ++ r.counter_indicators) a).1
        (f, (Mem-append r.material_findings r.counter_indicators f).1 k, n),
)

is_some-none : {A : Type 0} (o : Option A) → (is_some o ≡ false) ↔ (o ≡ none)
is_some-none none = (λ e. refl, λ e. refl)
is_some-none (some a) = (λ e. absurd (cc e), λ e. absurd (cc e))

-- An identifier is reported as invalid exactly when a material finding or a counter-indicator of the
-- recommendation names it and the ledger has no item of that identifier.
pub validate_citations-Cites :
    (l : Ledger) (r : Recommendation) (a : String)
    → Mem (validate_citations l r) a ↔ (Cites r a × (lookup a l ≡ none))
validate_citations-Cites l r a = (
  λ m.
      let both : (not (is_some (lookup a l)) && contains (cited_evidence r) a) ≡ true =
        ground (
          arith,
          contains-validate_citations l r a,
          (contains_iff (validate_citations l r) a).1 m,
        ) in
      (
        (cited_evidence_iff r a).0 ((contains_iff (cited_evidence r) a).0 (ground (arith, both))),
        (is_some-none (lookup a l)).0 (ground (arith, both)),
      ),
  λ (cites, unknown). (contains_iff (validate_citations l r) a).0 (
      ground (
        arith,
        contains-validate_citations l r a,
        (contains_iff (cited_evidence r) a).1 ((cited_evidence_iff r a).1 cites),
        (is_some-none (lookup a l)).1 unknown,
      )),
)
