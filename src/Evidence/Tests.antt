-- ===== src/Evidence/Tests.antt =====
-- The ledger of the sample evidence.
use amlguard_eu_ai_agent.Prelude.{none, ◌↔◌, ◌≡◌, not, [], ◌∷◌, ok, some, refl, is_ok}
use amlguard_eu_ai_agent.Prelude.Dict.{lookup, put}
use amlguard_eu_ai_agent.Evidence.{Ledger, add, validate_citations}
use amlguard_eu_ai_agent.Evidence.Citations.{add-keeps_hash, after_add, add_error_iff, clashes}
use amlguard_eu_ai_agent.Evidence.Cited.{Cites, validate_citations-Cites}
use amlguard_eu_ai_agent.Prelude.Members.{Mem}
use amlguard_eu_ai_agent.Samples.{sample_evidence, sample_recommendation}

abbrev sample_ledger : Ledger
sample_ledger = ("ALERT-A1", sample_evidence) ∷ []

validate_citations-Cites_example :
    Mem (validate_citations sample_ledger sample_recommendation) "ALERT-A1"
    ↔ (Cites sample_recommendation "ALERT-A1" × (lookup "ALERT-A1" sample_ledger ≡ none))
validate_citations-Cites_example =
    validate_citations-Cites sample_ledger sample_recommendation "ALERT-A1"

added_again : add sample_evidence sample_ledger ≡ ok sample_ledger
unfolding add lookup put
added_again = refl

known : lookup "ALERT-A1" sample_ledger ≡ some sample_evidence
unfolding lookup
known = refl

add-keeps_hash_example :
    (lookup "ALERT-A1" sample_ledger ≡ some (after_add sample_evidence "ALERT-A1" sample_evidence))
    × ((after_add sample_evidence "ALERT-A1" sample_evidence).content_hash
        ≡ sample_evidence.content_hash)
    × (lookup sample_evidence.evidence_id sample_ledger ≡ some sample_evidence)
add-keeps_hash_example =
    add-keeps_hash sample_evidence sample_ledger sample_ledger "ALERT-A1" sample_evidence
      added_again known

add_error_iff_example :
    is_ok (add sample_evidence sample_ledger)
    ≡ not (clashes sample_evidence (lookup sample_evidence.evidence_id sample_ledger))
add_error_iff_example = add_error_iff sample_evidence sample_ledger
