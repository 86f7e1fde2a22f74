-- ===== src/Evidence.antt =====
-- src/amlguard/evidence/ledger.py. `canonical_hash`, the SHA-256 digest of the canonical JSON text,
-- is the parameter `digest`.
pub mod Citations
pub mod Cited
mod Tests
use amlguard_eu_ai_agent.Prelude.{
  String, Option, none, some, List, [], ◌∷◌, ◌++◌, ◌==◌, Result, ok, err, evidence_collision,
  if◌then◌else◌,
}
use amlguard_eu_ai_agent.Prelude.Dict.{Dict, lookup, put, values, keys}
use amlguard_eu_ai_agent.Prelude.Sets.{difference}
use amlguard_eu_ai_agent.Domain.{
  Json, obj, to_fields, EvidenceItem, MaterialFinding, Recommendation,
}

unfoldable pub evidence_from_model :
    (Json → String)
    → (evidence_id evidence_type source_record_id case_id customer_id : String) → Dict Json
    → (provenance : String) → EvidenceItem
evidence_from_model digest evidence_id evidence_type source_record_id case_id customer_id content
      provenance =
    record {
      evidence_id = evidence_id;
      evidence_type = evidence_type;
      source_record_id = source_record_id;
      case_id = case_id;
      customer_id = customer_id;
      content = content;
      content_hash = digest (obj (to_fields content));
      provenance = provenance;
    }

-- The field `_items` of `EvidenceLedger`.
abbrev pub Ledger : Type 0
Ledger = Dict EvidenceItem

fill : List EvidenceItem → Ledger → Ledger
fill [] l = l
fill (e ∷ es) l = fill es (put e.evidence_id e l)

-- `EvidenceLedger(items)`: a later item replaces an earlier one of the same identifier.
unfoldable pub new_ledger : List EvidenceItem → Ledger
unfolding fill
new_ledger items = fill items []

replace : EvidenceItem → Ledger → Option EvidenceItem → Result Ledger
replace e l none = ok (put e.evidence_id e l)
replace e l (some previous) =
    if previous.content_hash == e.content_hash
    then ok (put e.evidence_id e l)
    else err evidence_collision

unfoldable pub add : EvidenceItem → Ledger → Result Ledger
unfolding replace
add e l = replace e l (lookup e.evidence_id l)

unfoldable pub items : Ledger → List EvidenceItem
unfolding values
items l = values l

-- `[id for finding in findings for id in finding.evidence_ids]`
abbrev pub evidence_ids_of : List MaterialFinding → List String
evidence_ids_of [] = []
evidence_ids_of (f ∷ fs) = f.evidence_ids ++ evidence_ids_of fs

abbrev pub cited_evidence : Recommendation → List String
cited_evidence r = evidence_ids_of (r.material_findings ++ r.counter_indicators)

unfoldable pub validate_citations : Ledger → Recommendation → List String
unfolding keys difference
validate_citations l r = difference (cited_evidence r) (keys l)
