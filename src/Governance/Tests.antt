-- ===== src/Governance/Tests.antt =====
-- The release decision on a failed control with a critical event, and two equal logs of one event.
use amlguard_eu_ai_agent.Prelude.{◌≡◌, ◌↔◌, String, List, [], ◌∷◌, true, refl, ◌⊎◌}
use amlguard_eu_ai_agent.Domain.{ControlResult, fail}
use amlguard_eu_ai_agent.Samples.{sample_digest}
use amlguard_eu_ai_agent.Governance.HardBlocks.{evaluate, ready}
use amlguard_eu_ai_agent.Governance.Released.{IsBlock, evaluate-IsBlock}
use amlguard_eu_ai_agent.Prelude.Members.{Mem}
use amlguard_eu_ai_agent.Governance.AuditChain.{AuditEvent, genesis_hash, verify_chain, sort_events}
use amlguard_eu_ai_agent.Governance.AuditChain.Tampering.{Collision, verify_chain-tamper_evident}

abbrev failed_control : ControlResult
failed_control = record {
  control_id = "EVIDENCE-CITATION-001";
  control_version = "1.0";
  outcome = fail;
  evidence_ids = "E9" ∷ [];
  policy_ids = [];
  severity = "critical";
  hard_block = true;
}

abbrev reported : List String
reported = "fabricated_evidence" ∷ "late_login" ∷ []

evaluate-IsBlock_example :
    ((a : String)
      → Mem (evaluate (failed_control ∷ []) reported).hard_blocks a
        ↔ IsBlock (failed_control ∷ []) reported a)
    × (((evaluate (failed_control ∷ []) reported).status ≡ ready)
        ↔ ((a : String) → ¬ IsBlock (failed_control ∷ []) reported a))
evaluate-IsBlock_example = evaluate-IsBlock (failed_control ∷ []) reported

abbrev sample_event : AuditEvent
sample_event = record {
  sequence = 1;
  event_type = "case_created";
  actor_id = "ivy";
  case_id = "C1";
  payload = [];
  previous_hash = genesis_hash;
  event_hash =
      "sequencecase_createdivyC1payload0000000000000000000000000000000000000000000000000000000000000000";
}

sample_event_valid : verify_chain sample_digest (sample_event ∷ []) ≡ []
unfolding verify_chain
sample_event_valid = refl

verify_chain-tamper_evident_example :
    (sort_events (sample_event ∷ []) ≡ sort_events (sample_event ∷ []))
    ⊎ Collision sample_digest (sort_events (sample_event ∷ [])) (sort_events (sample_event ∷ []))
verify_chain-tamper_evident_example =
    verify_chain-tamper_evident sample_digest (sample_event ∷ []) (sample_event ∷ []) refl
      sample_event_valid sample_event_valid refl
