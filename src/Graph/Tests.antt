-- ===== src/Graph/Tests.antt =====
-- A run of the graph on the sample case: to the human review, and completed by it.
use amlguard_eu_ai_agent.Prelude.{◌≡◌, [], ok, refl, ◌↔◌, ◌∷◌}
use amlguard_eu_ai_agent.Prelude.Dict.{Dict, lookup, put}
use amlguard_eu_ai_agent.Domain.{CaseData, completed, waiting_for_human_review}
use amlguard_eu_ai_agent.Governance.HardBlocks.{ready}
use amlguard_eu_ai_agent.Graph.State.{World, InvestigationState}
use amlguard_eu_ai_agent.Graph.Controls.{decision}
use amlguard_eu_ai_agent.Graph.Cleared.{decision-Cleared_iff}
use amlguard_eu_ai_agent.Graph.Passed.{Passed, decision-Passed_iff}
use amlguard_eu_ai_agent.Graph.Flow.{Thread, invoke, resume_information, resume_review, at_review}
use amlguard_eu_ai_agent.Graph.Sync.{Knows, Shows}
use amlguard_eu_ai_agent.Graph.Waiting.{Supported, Approved}
use amlguard_eu_ai_agent.Graph.Runs.{
  Settles, invoke_returns, resume_information_returns, resume_review_returns,
}
use amlguard_eu_ai_agent.Graph.Reached.{
  Reaches, started, decided, Reaches-Settles, Reaches-completed,
}
use amlguard_eu_ai_agent.Samples.{
  sample_tools, sample_repository, sample_case, sample_services, sample_state, sample_world,
  sample_recommendation, sample_review, sample_submission,
}

decision-Passed_iff_example :
    ((decision sample_state [] sample_recommendation).status ≡ ready)
    ↔ Passed sample_state [] sample_recommendation
decision-Passed_iff_example = decision-Passed_iff sample_state [] sample_recommendation

shown : Shows "C1" sample_state.status sample_world
unfolding lookup
shown = record { case = _; found = refl; shown = refl }

known : Knows "C1" sample_world
known = record { case = shown.case; found = shown.found }

invoke_returns_example :
    (t : Thread) × (w : World) × (invoke sample_services sample_state sample_world ≡ (ok t, w))
    × Settles "C1" t w
invoke_returns_example = invoke_returns sample_services sample_state sample_world known

resume_information_returns_example :
    (t : Thread) × (w : World) × (resume_information sample_services sample_state sample_submission
        sample_world
      ≡ (ok t, w))
    × Settles "C1" t w
resume_information_returns_example =
    resume_information_returns sample_services sample_state sample_submission sample_world shown

abbrev waiting_state : InvestigationState
waiting_state = record sample_state { status = waiting_for_human_review }

abbrev waiting_world : World
waiting_world = on_cases_of (("C1", record sample_case { status = waiting_for_human_review }) ∷ [])
  where
    on_cases_of : Dict CaseData → World
    on_cases_of d = record sample_world {
      tools = record sample_tools { repository = record sample_repository { cases = d } };
    }

is_ready : (decision waiting_state [] sample_recommendation).status ≡ ready
unfolding decision amlguard_eu_ai_agent.Governance.HardBlocks.evaluate
    amlguard_eu_ai_agent.Graph.Controls.evidence_control
    amlguard_eu_ai_agent.Graph.Controls.policy_control
    amlguard_eu_ai_agent.Evidence.validate_citations amlguard_eu_ai_agent.Evidence.new_ledger
    amlguard_eu_ai_agent.Evidence.items put
is_ready = refl

supported : Supported waiting_state
supported = record {
  executions = [];
  recommendation = sample_recommendation;
  drafted = refl;
  unblocked = refl;
  cleared = (decision-Cleared_iff waiting_state [] sample_recommendation).0 is_ready;
}

shown_waiting : Shows "C1" waiting_for_human_review waiting_world
unfolding lookup
shown_waiting = record { case = _; found = refl; shown = refl }

resume_review_returns_example :
    (t : Thread) × (w : World) × (resume_review sample_services waiting_state sample_review
        waiting_world
      ≡ (ok t, w))
    × Settles "C1" t w
resume_review_returns_example =
    resume_review_returns sample_services waiting_state sample_review waiting_world refl supported
      shown_waiting

first_run :
    (t : Thread) × (w : World) × (invoke sample_services sample_state sample_world ≡ (ok t, w))
    × (t.pending ≡ at_review)
unfolding invoke amlguard_eu_ai_agent.Graph.Nodes.guarded
    amlguard_eu_ai_agent.Graph.Nodes.load_and_retrieve amlguard_eu_ai_agent.Graph.Nodes.draft
    amlguard_eu_ai_agent.Graph.Nodes.recover amlguard_eu_ai_agent.Graph.Nodes.notify
    amlguard_eu_ai_agent.Graph.Nodes.notify_suppressed amlguard_eu_ai_agent.Graph.Nodes.recommend
    amlguard_eu_ai_agent.Graph.Nodes.human_review amlguard_eu_ai_agent.Graph.Nodes.review_case
    amlguard_eu_ai_agent.Graph.Nodes.save_edit amlguard_eu_ai_agent.Graph.Nodes.save_edited
    amlguard_eu_ai_agent.Tools.Repository.set_status amlguard_eu_ai_agent.Tools.Repository.get_alert
    amlguard_eu_ai_agent.Tools.Repository.audit amlguard_eu_ai_agent.Tools.Repository.get_customer
    amlguard_eu_ai_agent.Tools.Repository.get_kyc
    amlguard_eu_ai_agent.Tools.Repository.get_transactions
    amlguard_eu_ai_agent.Tools.Repository.save_recommendation
    amlguard_eu_ai_agent.Tools.Repository.save_review amlguard_eu_ai_agent.Tools.Repository.get_case
    amlguard_eu_ai_agent.Tools.Service.get_alert
    amlguard_eu_ai_agent.Tools.Service.get_customer_profile
    amlguard_eu_ai_agent.Tools.Service.get_kyc_profile
    amlguard_eu_ai_agent.Tools.Service.get_transactions
    amlguard_eu_ai_agent.Tools.Service.record_access amlguard_eu_ai_agent.Tools.Service.authorize
    amlguard_eu_ai_agent.Graph.Controls.validate amlguard_eu_ai_agent.Graph.Controls.validate_with
    amlguard_eu_ai_agent.Graph.Controls.audit_blocks
    amlguard_eu_ai_agent.Graph.Controls.control_results
    amlguard_eu_ai_agent.Graph.Controls.crosses_scope
    amlguard_eu_ai_agent.Graph.Controls.executes_prohibited
    amlguard_eu_ai_agent.Graph.Controls.security_events
    amlguard_eu_ai_agent.Graph.Controls.validate_policy_citations
    amlguard_eu_ai_agent.Evidence.evidence_from_model
    amlguard_eu_ai_agent.Governance.AuditChain.calculate_event_hash
    amlguard_eu_ai_agent.Graph.Flow.after_draft amlguard_eu_ai_agent.Graph.Flow.after_validation
    amlguard_eu_ai_agent.Graph.Flow.draft_stage amlguard_eu_ai_agent.Graph.Flow.go_on
    amlguard_eu_ai_agent.Graph.Flow.route_after_stage
    amlguard_eu_ai_agent.Graph.Flow.route_after_validation
    amlguard_eu_ai_agent.Graph.Flow.validate_stage
    amlguard_eu_ai_agent.Graph.Flow.route_after_review amlguard_eu_ai_agent.Domain.validate_review
    decision amlguard_eu_ai_agent.Governance.HardBlocks.evaluate
    amlguard_eu_ai_agent.Graph.Controls.evidence_control
    amlguard_eu_ai_agent.Graph.Controls.policy_control
    amlguard_eu_ai_agent.Evidence.validate_citations amlguard_eu_ai_agent.Evidence.new_ledger
    amlguard_eu_ai_agent.Evidence.items put
first_run = (_, _, refl, refl)

first_run_reached : Reaches sample_services "C1" first_run.0 first_run.1
first_run_reached = started sample_state sample_world first_run.0 first_run.1 refl known first_run.2

Reaches-Settles_example : Settles "C1" first_run.0 first_run.1
Reaches-Settles_example =
    Reaches-Settles sample_services "C1" first_run.0 first_run.1 first_run_reached

second_run :
    (t : Thread) × (w : World) × (resume_review sample_services first_run.0.state sample_review
        first_run.1
      ≡ (ok t, w))
    × (t.state.status ≡ completed)
unfolding resume_review first_run amlguard_eu_ai_agent.Graph.Nodes.guarded
    amlguard_eu_ai_agent.Graph.Nodes.load_and_retrieve amlguard_eu_ai_agent.Graph.Nodes.draft
    amlguard_eu_ai_agent.Graph.Nodes.recover amlguard_eu_ai_agent.Graph.Nodes.notify
    amlguard_eu_ai_agent.Graph.Nodes.notify_suppressed amlguard_eu_ai_agent.Graph.Nodes.recommend
    amlguard_eu_ai_agent.Graph.Nodes.human_review amlguard_eu_ai_agent.Graph.Nodes.review_case
    amlguard_eu_ai_agent.Graph.Nodes.save_edit amlguard_eu_ai_agent.Graph.Nodes.save_edited
    amlguard_eu_ai_agent.Tools.Repository.set_status amlguard_eu_ai_agent.Tools.Repository.get_alert
    amlguard_eu_ai_agent.Tools.Repository.audit amlguard_eu_ai_agent.Tools.Repository.get_customer
    amlguard_eu_ai_agent.Tools.Repository.get_kyc
    amlguard_eu_ai_agent.Tools.Repository.get_transactions
    amlguard_eu_ai_agent.Tools.Repository.save_recommendation
    amlguard_eu_ai_agent.Tools.Repository.save_review amlguard_eu_ai_agent.Tools.Repository.get_case
    amlguard_eu_ai_agent.Tools.Service.get_alert
    amlguard_eu_ai_agent.Tools.Service.get_customer_profile
    amlguard_eu_ai_agent.Tools.Service.get_kyc_profile
    amlguard_eu_ai_agent.Tools.Service.get_transactions
    amlguard_eu_ai_agent.Tools.Service.record_access amlguard_eu_ai_agent.Tools.Service.authorize
    amlguard_eu_ai_agent.Graph.Controls.validate amlguard_eu_ai_agent.Graph.Controls.validate_with
    amlguard_eu_ai_agent.Graph.Controls.audit_blocks
    amlguard_eu_ai_agent.Graph.Controls.control_results
    amlguard_eu_ai_agent.Graph.Controls.crosses_scope
    amlguard_eu_ai_agent.Graph.Controls.executes_prohibited
    amlguard_eu_ai_agent.Graph.Controls.security_events
    amlguard_eu_ai_agent.Graph.Controls.validate_policy_citations
    amlguard_eu_ai_agent.Evidence.evidence_from_model
    amlguard_eu_ai_agent.Governance.AuditChain.calculate_event_hash
    amlguard_eu_ai_agent.Graph.Flow.after_draft amlguard_eu_ai_agent.Graph.Flow.after_validation
    amlguard_eu_ai_agent.Graph.Flow.draft_stage amlguard_eu_ai_agent.Graph.Flow.go_on
    amlguard_eu_ai_agent.Graph.Flow.route_after_stage
    amlguard_eu_ai_agent.Graph.Flow.route_after_validation
    amlguard_eu_ai_agent.Graph.Flow.validate_stage
    amlguard_eu_ai_agent.Graph.Flow.route_after_review amlguard_eu_ai_agent.Domain.validate_review
    decision amlguard_eu_ai_agent.Governance.HardBlocks.evaluate
    amlguard_eu_ai_agent.Graph.Controls.evidence_control
    amlguard_eu_ai_agent.Graph.Controls.policy_control
    amlguard_eu_ai_agent.Evidence.validate_citations amlguard_eu_ai_agent.Evidence.new_ledger
    amlguard_eu_ai_agent.Evidence.items put
second_run = (_, _, refl, refl)

second_run_reached : Reaches sample_services "C1" second_run.0 second_run.1
second_run_reached =
    decided first_run.0 first_run.1 sample_review second_run.0 second_run.1 first_run_reached
      first_run.3 second_run.2

Reaches-completed_example : Approved second_run.0.state
Reaches-completed_example =
    Reaches-completed sample_services "C1" second_run.0 second_run.1 second_run_reached second_run.3
