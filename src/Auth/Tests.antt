-- ===== src/Auth/Tests.antt =====
-- The access rules on an investigator and the case that is assigned to them.
use amlguard_eu_ai_agent.Auth.{read_case, authorize_case, full_access_role}
use amlguard_eu_ai_agent.Auth.Rules.{authorize_case-permitted, permitted, standing}
use amlguard_eu_ai_agent.Samples.{investigator, sample_case}
use amlguard_eu_ai_agent.Prelude.{◌≡◌, ◌||◌, ◌&&◌, ◌==◌}
use amlguard_eu_ai_agent.Prelude.Dict.{is_none}
use amlguard_eu_ai_agent.Prelude.Sets.{contains}

authorize_case-permitted_example : is_none (authorize_case investigator sample_case read_case) ≡ (
    contains investigator.roles full_access_role
    || (investigator.tenant_id == sample_case.tenant_id)
      && permitted read_case (standing investigator sample_case))
authorize_case-permitted_example = authorize_case-permitted investigator sample_case read_case
