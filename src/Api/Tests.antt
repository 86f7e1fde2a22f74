-- ===== src/Api/Tests.antt =====
-- The routes on an application with the sample case.
use amlguard_eu_ai_agent.Prelude.{
  subst, ◌≡◌, refl, some, none, [], ◌∷◌, true, false, ◌&&◌, ◌==◌, arith, stale_version,
}
use amlguard_eu_ai_agent.Prelude.Dict.{lookup, is_none}
use amlguard_eu_ai_agent.Prelude.Lists.{first}
use amlguard_eu_ai_agent.Domain.{CaseData, waiting_for_human_review, completed}
use amlguard_eu_ai_agent.Auth.{Actor, authorize_case, read_case}
use amlguard_eu_ai_agent.Graph.Engine.{run_of, values_of, InvestigationRun}
use amlguard_eu_ai_agent.Api.Progress.{new_store}
use amlguard_eu_ai_agent.Api.Http.{App, replied, refused}
use amlguard_eu_ai_agent.Api.Schemas.{StartInvestigationRequest}
use amlguard_eu_ai_agent.Api.Access.{is_readable, add_visible, workspace_of}
use amlguard_eu_ai_agent.Api.Requests.{reading, handle, action_of}
use amlguard_eu_ai_agent.Api.Routes.{start_investigation, human_review, claim}
use amlguard_eu_ai_agent.Api.Pages.{
  ui_human_review, ui_reset_investigation, workspace_page, problem, to_home,
}
use amlguard_eu_ai_agent.Api.Denied.{Unharmed, Forbidden, handle_refuses}
use amlguard_eu_ai_agent.Api.Idempotent.{start_investigation_again}
use amlguard_eu_ai_agent.Api.Home.{add_visible-first}
use amlguard_eu_ai_agent.Api.Decisions.{approval, human_review_stale}
use amlguard_eu_ai_agent.Api.Completed.{
  Forgotten, Assigned, ui_reset_investigation-Forgotten, claim-Assigned,
}
use amlguard_eu_ai_agent.Samples.{
  sample_case, sample_world, sample_services, sample_runtime, sample_tools, sample_repository,
}

abbrev analyst : Actor
analyst = record { actor_id = "ivy"; roles = "analyst" ∷ []; tenant_id = "bank" }

abbrev reviewer : Actor
reviewer = record { actor_id = "rob"; roles = "reviewer" ∷ []; tenant_id = "bank" }

abbrev stranger : Actor
stranger = record { actor_id = "sam"; roles = "analyst" ∷ []; tenant_id = "other" }

-- The application that holds this case.
abbrev holding : CaseData → App
holding c = record {
  engine = record {
    world = record sample_world {
      tools = record sample_tools {
        repository = record sample_repository { cases = ("C1", c) ∷ [] };
      };
    };
    threads = [];
  };
  jobs = new_store;
  spawned = [];
  idempotency = [];
}

abbrev waiting_case : CaseData
waiting_case = record sample_case { status = waiting_for_human_review; recommendation_version = 2 }

abbrev assigned_case : CaseData
assigned_case = record waiting_case { assigned_reviewer_id = some "rob" }

abbrev completed_case : CaseData
completed_case = record sample_case { status = completed }

forbidden : Forbidden "C1" stranger (action_of reading) (holding sample_case)
unfolding lookup amlguard_eu_ai_agent.Auth.authorize_case
forbidden c e =
    let same : sample_case ≡ c = cc e in
    subst (λ y. is_none (authorize_case stranger y read_case) ≡ false) same refl

handle_refuses_example :
    ((handle sample_services sample_runtime reading "C1" stranger (holding sample_case)).0
      ≡ refused 404)
    × Unharmed "C1" stranger
        (holding sample_case)
        (handle sample_services sample_runtime reading "C1" stranger (holding sample_case)).1
unfolding amlguard_eu_ai_agent.Auth.has_required_role
handle_refuses_example =
    handle_refuses sample_services sample_runtime reading "C1" stranger (holding sample_case)
      forbidden

claimed : (claim sample_services sample_runtime "C1" reviewer (holding waiting_case)).0 ≡ replied tt
unfolding claim lookup amlguard_eu_ai_agent.Api.Access.allow
    amlguard_eu_ai_agent.Auth.has_required_role amlguard_eu_ai_agent.Api.Access.case_for_action
    amlguard_eu_ai_agent.Tools.Repository.get_case authorize_case
    amlguard_eu_ai_agent.Tools.Repository.assign_reviewer
    amlguard_eu_ai_agent.Api.Forms.record_claim amlguard_eu_ai_agent.Tools.Repository.audit
claimed = refl

claim-Assigned_example :
    Assigned "C1" reviewer
      (holding waiting_case)
      (claim sample_services sample_runtime "C1" reviewer (holding waiting_case)).1
claim-Assigned_example =
    claim-Assigned sample_services sample_runtime "C1" reviewer (holding waiting_case) claimed

add_visible-first_example :
    lookup "A1" (add_visible stranger (sample_case ∷ []) [])
    ≡ first (λ c. is_readable stranger c && c.alert_id == "A1") (sample_case ∷ [])
add_visible-first_example = add_visible-first stranger "A1" (sample_case ∷ [])

carried_out :
    (ui_reset_investigation sample_services sample_runtime "C1" analyst (holding completed_case)).0
    ≡ replied to_home
unfolding ui_reset_investigation lookup amlguard_eu_ai_agent.Api.Access.allow
    amlguard_eu_ai_agent.Auth.has_required_role amlguard_eu_ai_agent.Api.Access.case_for_action
    amlguard_eu_ai_agent.Tools.Repository.get_case authorize_case
    amlguard_eu_ai_agent.Graph.Engine.reset amlguard_eu_ai_agent.Tools.Repository.audit
    amlguard_eu_ai_agent.Tools.Repository.delete_case
carried_out = refl

ui_reset_investigation-Forgotten_example :
    Forgotten "C1" analyst
      (holding completed_case)
      (ui_reset_investigation sample_services sample_runtime "C1" analyst
        (holding completed_case)).1
ui_reset_investigation-Forgotten_example =
    ui_reset_investigation-Forgotten sample_services sample_runtime "C1" analyst
      (holding completed_case) to_home carried_out

human_review_stale_example :
    (human_review sample_services sample_runtime
        (approval 1 "fine")
        "C1"
        reviewer
        (holding assigned_case)
      ≡ (refused 500, holding assigned_case))
    × (ui_human_review sample_services sample_runtime "C1" 1 "APPROVE" "fine" reviewer
          (holding assigned_case)
        ≡ (
          replied (
              workspace_page
                (workspace_of
                  (run_of assigned_case (values_of assigned_case none))
                  reviewer
                  assigned_case)
                (problem stale_version)),
          holding assigned_case,
        ))
unfolding lookup amlguard_eu_ai_agent.Auth.has_required_role
    amlguard_eu_ai_agent.Auth.authorize_case
human_review_stale_example =
    human_review_stale sample_services sample_runtime "C1" reviewer 1 "fine" (holding assigned_case)
      assigned_case refl refl refl refl refl refl refl refl refl

abbrev first_request : StartInvestigationRequest
first_request = record { alert_id = "A1"; context_condition = "B5" }

abbrev second_request : StartInvestigationRequest
second_request = record { alert_id = "A1"; context_condition = "B0" }

-- The case is there already, so that the first request returns it.
abbrev first_run : InvestigationRun
first_run = run_of waiting_case (values_of waiting_case none)

first_answer :
    (start_investigation sample_services sample_runtime first_request "K" analyst "C2" "R2"
      (holding waiting_case)).0
    ≡ replied first_run
unfolding start_investigation lookup amlguard_eu_ai_agent.Api.Access.allow
    amlguard_eu_ai_agent.Auth.has_required_role amlguard_eu_ai_agent.Api.Schemas.valid_start
    amlguard_eu_ai_agent.Api.Http.cached amlguard_eu_ai_agent.Graph.Engine.start
    amlguard_eu_ai_agent.Tools.Repository.create_case amlguard_eu_ai_agent.Prelude.Dict.values
    amlguard_eu_ai_agent.Tools.Repository.get_case
first_answer = refl

abbrev after_first : App
after_first =
    (start_investigation sample_services sample_runtime first_request "K" analyst "C2" "R2"
      (holding waiting_case)).1

start_investigation_again_example :
    start_investigation sample_services sample_runtime second_request "K" analyst "C3" "R3"
      after_first
    ≡ (replied first_run, after_first)
unfolding amlguard_eu_ai_agent.Api.Schemas.valid_start
start_investigation_again_example =
    start_investigation_again sample_services sample_runtime first_request second_request "K"
      analyst "C2" "R2" "C3" "R3" (holding waiting_case) first_run first_answer refl
