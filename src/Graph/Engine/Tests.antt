-- ===== src/Graph/Engine/Tests.antt =====
-- The engine on the sample case: a critical event, the decisions after it, and a reset.
use amlguard_eu_ai_agent.Prelude.{◌≡◌, refl, err, [], ◌∷◌}
use amlguard_eu_ai_agent.Prelude.Dict.{lookup}
use amlguard_eu_ai_agent.Domain.{HumanReview}
use amlguard_eu_ai_agent.Graph.Flow.{Thread, thread, at_review}
use amlguard_eu_ai_agent.Graph.Engine.{
  Engine, record_security_event, review, supply_information, hard_blocked_case,
  not_waiting_for_information, Submission,
}
use amlguard_eu_ai_agent.Graph.Engine.Blocks.{Blocked, record_security_event_stops}
use amlguard_eu_ai_agent.Samples.{
  sample_world, sample_state, sample_services, sample_runtime, sample_case,
}

abbrev waiting_thread : Thread
waiting_thread = thread at_review sample_state

abbrev sample_engine : Engine
sample_engine = record { world = sample_world; threads = ("C1", waiting_thread) ∷ [] }

abbrev after_event : Engine
after_event =
    (record_security_event sample_services sample_runtime "C1" "fabricated_evidence"
      sample_engine).1

record_security_event_stops_example :
    Blocked "C1" "fabricated_evidence" after_event
    × ((r : HumanReview) (sub : Submission)
        → r.case_id ≡ "C1"
        → (review sample_services sample_runtime r after_event
            ≡ (err hard_blocked_case, after_event))
          × (supply_information sample_services sample_runtime "C1" sub after_event
              ≡ (err not_waiting_for_information, after_event)))
unfolding lookup
record_security_event_stops_example =
    record_security_event_stops sample_services sample_runtime "C1" "fabricated_evidence"
      sample_engine sample_case waiting_thread refl refl refl
