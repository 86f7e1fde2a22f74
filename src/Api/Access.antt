-- ===== src/Api/Access.antt =====
-- Who may see and do what in src/amlguard/api/app.py: `_case_for_action`, the workspace of a case,
-- and the cases on the home page.
use amlguard_eu_ai_agent.Prelude.{
  String, Bool, true, false, List, [], ◌∷◌, ◌&&◌, ◌||◌, not, ◌==◌, if◌then◌else◌,
}
use amlguard_eu_ai_agent.Prelude.Dict.{Dict, lookup, put, is_none, is_some}
use amlguard_eu_ai_agent.Prelude.Sets.{contains, sorted_set, meets}
use amlguard_eu_ai_agent.Domain.{Json, str, strings, CaseData}
use amlguard_eu_ai_agent.Auth.{
  Actor, CaseAction, claim_review, read_case, read_evidence, read_trace, reset, review,
  supply_information, authorize_case, has_required_role, full_access_role, is_id,
}
use amlguard_eu_ai_agent.Tools.Repository
use amlguard_eu_ai_agent.Graph.State.{Services}
use amlguard_eu_ai_agent.Graph.Nodes.{audit_case}
use amlguard_eu_ai_agent.Graph.Engine.{InvestigationRun, on_world}
use amlguard_eu_ai_agent.Api.Http.{
  Route, reply, refuse, ◌>>=◌, ◌>>◌, calling, uncaught, on_repository,
}

-- `Depends(require_roles(*allowed))`
unfoldable pub allow : List String → Actor → Route Unit
allow allowed actor = if has_required_role allowed actor then reply tt else refuse 403

-- A body or a header that the framework accepts.
abbrev pub accept : Bool → Route Unit
accept true = reply tt
accept false = refuse 422

abbrev pub action_text : CaseAction → String
action_text claim_review = "claim_review"
action_text read_case = "read_case"
action_text read_evidence = "read_evidence"
action_text read_trace = "read_trace"
action_text reset = "reset"
action_text review = "review"
action_text supply_information = "supply_information"

abbrev pub denial_payload : Actor → CaseAction → Dict Json
denial_payload actor action =
    ("action", str (action_text action))
    ∷ ("actor_tenant_id", str actor.tenant_id)
    ∷ ("roles", strings (sorted_set actor.roles))
    ∷ []

module _ (s : Services) where
  -- The audit of a denied access.
  unfoldable pub record_denial : String → Actor → CaseAction → Route Unit
  record_denial case_id actor action = calling uncaught (
      on_world (
        audit_case s "case_authorization_denied" actor.actor_id case_id
          (denial_payload actor action)))

  -- The part of `_case_for_action` below the lookup.
  unfoldable pub authorized : String → Actor → CaseAction → CaseData → Route CaseData
  unfolding record_denial
  authorized case_id actor action case =
      if is_none (authorize_case actor case action)
      then reply case
      else (record_denial case_id actor action >> refuse 404)

  unfoldable pub case_for_action : String → Actor → CaseAction → Route CaseData
  unfolding authorized
  case_for_action case_id actor action = do
    case ← calling (λ e. 404) (on_repository (Repository.get_case case_id))
    authorized case_id actor action case

-- The answers on the pages of a case, as far as they concern the case and the actor.
pub record Workspace : Type 0 where
  pub run : InvestigationRun
  pub case : CaseData
  pub actor : Actor
  pub can_review : Bool
  pub can_claim : Bool
  pub can_supply_information : Bool

abbrev pub workspace_of : InvestigationRun → Actor → CaseData → Workspace
workspace_of run actor case =
    let is_administrator = contains actor.roles full_access_role in
    record {
      run = run;
      case = case;
      actor = actor;
      can_review = is_administrator || is_id actor.actor_id case.assigned_reviewer_id;
      can_claim =
          contains actor.roles "reviewer"
          && not (case.assigned_investigator_id == actor.actor_id)
          && not (is_some case.assigned_reviewer_id);
      can_supply_information =
          is_administrator
          || actor.actor_id == case.assigned_investigator_id
          || is_id actor.actor_id case.assigned_reviewer_id;
    }

-- `_investigation_workspace_context`, without the order of the evidence.
unfoldable pub workspace : InvestigationRun → Actor → Route Workspace
workspace run actor = do
  case ← calling uncaught (on_repository (Repository.get_case run.case_id))
  reply (workspace_of run actor case)

-- `authorize_case(actor, case, "read_case")` does not raise.
abbrev pub is_readable : Actor → CaseData → Bool
is_readable actor case = is_none (authorize_case actor case read_case)

-- `visible_cases.setdefault(case.alert_id, case)`
abbrev pub set_default : String → CaseData → Dict CaseData → Dict CaseData
set_default k c d = if is_some (lookup k d) then d else put k c d

unfoldable pub add_visible : Actor → List CaseData → Dict CaseData → Dict CaseData
add_visible actor [] seen = seen
add_visible actor (c ∷ cs) seen =
    add_visible actor cs (if is_readable actor c then set_default c.alert_id c seen else seen)

pub data HomePage : Type 0 where
  denied_page : HomePage
  index_page : Dict CaseData → HomePage

-- `home`, for an actor who is logged in.
unfoldable pub home : Actor → Route HomePage
unfolding add_visible
home actor app =
    if meets actor.roles ("analyst" ∷ "reviewer" ∷ "researcher" ∷ "administrator" ∷ [])
    then reply
        (index_page
          (add_visible actor (Repository.list_cases app.engine.world.tools.repository) []))
        app
    else reply denied_page app
