-- ===== src/Auth.antt =====
-- src/amlguard/auth: `authorize_case` of case_access.py with its actors, and the role check of
-- `require_roles` of dependencies.py. A denial is returned with the reason that the source gives.
pub mod Rules
mod Tests
use amlguard_eu_ai_agent.Prelude.{
  String, Bool, true, false, Option, none, some, List, ◌&&◌, ◌||◌, not, ◌==◌, if◌then◌else◌,
}
use amlguard_eu_ai_agent.Prelude.Lists.{any}
use amlguard_eu_ai_agent.Prelude.Sets.{contains, meets}
use amlguard_eu_ai_agent.Domain.{CaseData}

pub record Actor : Type 0 where
  pub actor_id : String
  pub roles : List String
  pub tenant_id : String

abbrev pub full_access_role : String
full_access_role = "administrator"

-- The dependency that `require_roles(*allowed)` returns: does it let the actor pass?
unfoldable pub has_required_role : List String → Actor → Bool
has_required_role allowed actor =
    not (not (contains actor.roles full_access_role) && not (meets actor.roles allowed))

pub data CaseAction : Type 0 where
  claim_review read_case read_evidence read_trace reset review supply_information : CaseAction

pub data Denial : Type 0 where
  other_tenant reviewer_role_required own_review not_assigned_reviewer : Denial
  researcher_role_required not_assigned not_authorized : Denial

-- `actor.actor_id == case.assigned_reviewer_id`, where the latter may be None.
abbrev pub is_id : String → Option String → Bool
is_id a none = false
is_id a (some b) = a == b

-- The branches on `action`, below the tests of role and tenant.
decide_action : Actor → CaseAction → Bool → Bool → Option Denial
decide_action actor claim_review is_investigator is_reviewer =
    if not (contains actor.roles "reviewer")
    then some reviewer_role_required
    else if is_investigator
    then some own_review
    else none
decide_action actor review is_investigator is_reviewer =
    if not (contains actor.roles "reviewer") || not is_reviewer
    then some not_assigned_reviewer
    else none
decide_action actor read_trace is_investigator is_reviewer =
    if not (contains actor.roles "researcher") then some researcher_role_required else none
decide_action actor read_case is_investigator is_reviewer =
    if contains actor.roles "researcher" || (is_investigator || is_reviewer)
    then none
    else some not_assigned
decide_action actor read_evidence is_investigator is_reviewer =
    if contains actor.roles "researcher" || (is_investigator || is_reviewer)
    then none
    else some not_assigned
decide_action actor supply_information is_investigator is_reviewer =
    if is_investigator || is_reviewer then none else some not_authorized
decide_action actor reset is_investigator is_reviewer =
    if is_investigator then none else some not_authorized

-- `none` is a return; `some d` is a raised `CaseAccessDenied`.
unfoldable pub authorize_case : Actor → CaseData → CaseAction → Option Denial
unfolding decide_action
authorize_case actor case action =
    if contains actor.roles full_access_role
    then none
    else if not (actor.tenant_id == case.tenant_id)
    then some other_tenant
    else decide_action actor action (actor.actor_id == case.assigned_investigator_id)
        (is_id actor.actor_id case.assigned_reviewer_id)
