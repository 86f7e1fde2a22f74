-- ===== src/Api/Requests.antt =====
-- The requests on a case that the routes of src/amlguard/api/app.py take, in one type.
use amlguard_eu_ai_agent.Prelude.{ℕ, String, Bool, true, List, [], ◌∷◌, ◌&&◌, leb, Result}
use amlguard_eu_ai_agent.Domain.{Json}
use amlguard_eu_ai_agent.Auth.{
  Actor, CaseAction, claim_review, read_case, read_evidence, reset, review, supply_information,
}
use amlguard_eu_ai_agent.Graph.State.{Services}
use amlguard_eu_ai_agent.Graph.Engine.{Runtime}
use amlguard_eu_ai_agent.Api.Http.{Route, reply, ◌>>◌}
use amlguard_eu_ai_agent.Api.Schemas.{
  ResumeInvestigationRequest, HumanReviewRequest, valid_information, valid_decision, valid_key,
}
use amlguard_eu_ai_agent.Api.Routes.{
  get_investigation, resume_investigation, get_evidence, claim, human_review,
}
use amlguard_eu_ai_agent.Api.Pages.{
  analysts, readers, form_bounds, ui_get_investigation, ui_get_investigation_page,
  ui_reset_investigation, ui_resume_investigation, ui_claim_review, ui_human_review,
}

-- A request on a case, to a JSON route or to a page.
pub data CaseRequest : Type 0 where
  reading reading_evidence claiming viewing viewing_page resetting claiming_form : CaseRequest
  resuming : ResumeInvestigationRequest → (key : String) → CaseRequest
  deciding : HumanReviewRequest → CaseRequest
  resuming_form : (String → Result Json) → (information_json submission_id : String) → CaseRequest
  deciding_form : (version : ℕ) → (action rationale : String) → CaseRequest

abbrev pub roles_of : CaseRequest → List String
roles_of reading = readers
roles_of reading_evidence = readers
roles_of viewing = readers
roles_of viewing_page = readers
roles_of resetting = analysts
roles_of (resuming body key) = analysts
roles_of (resuming_form loads j i) = analysts
roles_of _ = "reviewer" ∷ []

abbrev pub action_of : CaseRequest → CaseAction
action_of reading = read_case
action_of viewing = read_case
action_of viewing_page = read_case
action_of reading_evidence = read_evidence
action_of claiming = claim_review
action_of claiming_form = claim_review
action_of resetting = reset
action_of (resuming body key) = supply_information
action_of (resuming_form loads j i) = supply_information
action_of (deciding body) = review
action_of (deciding_form v a r) = review

-- Does the framework accept the body, the header and the form?
abbrev pub is_well_formed : CaseRequest → Bool
is_well_formed (resuming body key) = valid_information body.information && valid_key key
is_well_formed (resuming_form loads j i) = form_bounds 2 32768 j && form_bounds 1 200 i
is_well_formed (deciding body) = valid_decision body
is_well_formed (deciding_form v a r) = leb 1 v && form_bounds 1 4000 r
is_well_formed _ = true

module _ (s : Services) (x : Runtime) where
  -- The route of a request, without what it answers with.
  unfoldable pub handle : CaseRequest → (case_id : String) → Actor → Route Unit
  handle reading k a = get_investigation s x k a >> reply tt
  handle reading_evidence k a = get_evidence s x k a >> reply tt
  handle claiming k a = claim s x k a >> reply tt
  handle viewing k a = ui_get_investigation s x k a >> reply tt
  handle viewing_page k a = ui_get_investigation_page s x k a >> reply tt
  handle resetting k a = ui_reset_investigation s x k a >> reply tt
  handle claiming_form k a = ui_claim_review s x k a >> reply tt
  handle (resuming body key) k a = resume_investigation s x body k key a >> reply tt
  handle (deciding body) k a = human_review s x body k a >> reply tt
  handle (resuming_form loads j i) k a = ui_resume_investigation s x loads k j i a >> reply tt
  handle (deciding_form v t r) k a = ui_human_review s x k v t r a >> reply tt
