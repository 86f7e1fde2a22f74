-- ===== src/Evidence/Citations.antt =====
-- What the ledger accepts and what it reports.
use amlguard_eu_ai_agent.Prelude.{
  String, Bool, false, ◌≡◌, refl, Option, none, some, List, [], ◌∷◌, ◌&&◌, ◌||◌, not, ◌==◌, eq_iff,
  eq_refl, Option-cases, inl, inr, is_ok, ok, arith, if◌then◌else◌,
}
use amlguard_eu_ai_agent.Prelude.Dict.{lookup, put, is_some, lookup-put, contains-keys}
use amlguard_eu_ai_agent.Prelude.Lists.{any}
use amlguard_eu_ai_agent.Prelude.Sets.{contains, contains-difference}
use amlguard_eu_ai_agent.Domain.{EvidenceItem, Recommendation}
use amlguard_eu_ai_agent.Evidence.{
  Ledger, fill, new_ledger, add, cited_evidence, validate_citations,
}

-- An identifier is reported as invalid exactly when the recommendation cites it, in a material
-- finding or a counter-indicator, and the ledger has no item of that identifier.
pub contains-validate_citations :
    (l : Ledger) (r : Recommendation) (a : String)
    → contains (validate_citations l r) a
      ≡ (not (is_some (lookup a l)) && contains (cited_evidence r) a)
unfolding validate_citations
contains-validate_citations l r a = rw (contains-difference, contains-keys)

lookup-fill :
    (a : String) (es : List EvidenceItem) (l : Ledger)
    → is_some (lookup a (fill es l)) ≡ (any (λ e. e.evidence_id == a) es || is_some (lookup a l))
unfolding fill
lookup-fill a [] l = refl
lookup-fill a (e ∷ es) l =
    ground (arith, lookup-fill a es (put e.evidence_id e l), lookup-put e.evidence_id a e l)

-- A ledger built from a list of items knows exactly the identifiers of these items.
pub lookup-new_ledger :
    (a : String) (es : List EvidenceItem)
    → is_some (lookup a (new_ledger es)) ≡ any (λ e. e.evidence_id == a) es
unfolding new_ledger lookup
lookup-new_ledger a es = ground (arith, lookup-fill a es [])

abbrev pub clashes : EvidenceItem → Option EvidenceItem → Bool
clashes e none = false
clashes e (some old) = not (old.content_hash == e.content_hash)

-- The item that the identifier has after the addition.
abbrev pub after_add : EvidenceItem → String → EvidenceItem → EvidenceItem
after_add e k old = if e.evidence_id == k then e else old

-- A successful addition forgets and falsifies nothing: an identifier that the ledger knew still has
-- an item, with the content hash that it had; and the added identifier has the added item.
pub add-keeps_hash :
    (e : EvidenceItem) (l l' : Ledger) (k : String) (old : EvidenceItem)
    → add e l ≡ ok l'
    → lookup k l ≡ some old
    → (lookup k l' ≡ some (after_add e k old))
      × ((after_add e k old).content_hash ≡ old.content_hash)
      × (lookup e.evidence_id l' ≡ some e)
unfolding add
add-keeps_hash e l l' k old h found = elim (Option-cases (lookup e.evidence_id l)) [
  | inl fresh ↦ ground (
    arith,
    fresh,
    lookup-put e.evidence_id k e l,
    lookup-put e.evidence_id e.evidence_id e l,
    eq_iff e.evidence_id k,
    eq_refl e.evidence_id,
  )
  | inr (previous, known) ↦ ground (
    arith,
    known,
    lookup-put e.evidence_id k e l,
    lookup-put e.evidence_id e.evidence_id e l,
    eq_iff e.evidence_id k,
    eq_iff previous.content_hash e.content_hash,
    eq_refl e.evidence_id,
  )
]

-- An addition raises exactly when the ledger has an item of that identifier whose content hash is
-- another one.
pub add_error_iff :
    (e : EvidenceItem) (l : Ledger) → is_ok (add e l) ≡ not (clashes e (lookup e.evidence_id l))
unfolding add
add_error_iff e l = ground arith
