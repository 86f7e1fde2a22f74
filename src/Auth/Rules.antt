-- ===== src/Auth/Rules.antt =====
-- What `authorize_case` grants, as an independent table, and the separation of duties.
use amlguard_eu_ai_agent.Prelude.{Bool, ◌≡◌, ◌&&◌, ◌||◌, not, ◌==◌, arith}
use amlguard_eu_ai_agent.Prelude.Dict.{is_none}
use amlguard_eu_ai_agent.Prelude.Sets.{contains}
use amlguard_eu_ai_agent.Domain.{CaseData}
use amlguard_eu_ai_agent.Auth.{
  Actor, CaseAction, claim_review, read_case, read_evidence, read_trace, reset, review,
  supply_information, is_id, full_access_role, authorize_case,
}

-- The relations that an actor who is no administrator can have to a case.
pub record Standing : Type 0 where
  pub reviewer_role : Bool
  pub researcher_role : Bool
  pub investigates : Bool
  pub reviews : Bool

abbrev pub standing : Actor → CaseData → Standing
standing actor case = record {
  reviewer_role = contains actor.roles "reviewer";
  researcher_role = contains actor.roles "researcher";
  investigates = actor.actor_id == case.assigned_investigator_id;
  reviews = is_id actor.actor_id case.assigned_reviewer_id;
}

-- The permission matrix: who of one tenant may do what.
abbrev pub permitted : CaseAction → Standing → Bool
permitted claim_review s = s.reviewer_role && not s.investigates
permitted review s = s.reviewer_role && s.reviews
permitted read_trace s = s.researcher_role
permitted read_case s = s.researcher_role || s.investigates || s.reviews
permitted read_evidence s = s.researcher_role || s.investigates || s.reviews
permitted supply_information s = s.investigates || s.reviews
permitted reset s = s.investigates

-- `authorize_case` returns without raising exactly when the actor is an administrator, or belongs
-- to the tenant of the case and the permission matrix grants the action to the actor's standing.
pub authorize_case-permitted :
    (actor : Actor) (case : CaseData) (action : CaseAction)
    → is_none (authorize_case actor case action) ≡ (
        contains actor.roles full_access_role
        || (actor.tenant_id == case.tenant_id) && permitted action (standing actor case))
unfolding authorize_case
authorize_case-permitted actor case claim_review = ground arith
authorize_case-permitted actor case _ = ground arith
