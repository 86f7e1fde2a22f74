-- ===== src/Api/Forms.antt =====
-- The calls of the engine that the routes of src/amlguard/api/app.py make with what a request
-- carries. `loads` is `json.loads`: a value, or a JSONDecodeError.
use amlguard_eu_ai_agent.Prelude.{
  String, none, Result, ok, err, Action, lift, ◌>>=◌, ◌>>◌, guard, not, ◌==◌, invalid_payload,
  if◌then◌else◌, ℕ, ◌∷◌, [],
}
use amlguard_eu_ai_agent.Prelude.Dict.{Dict}
use amlguard_eu_ai_agent.Domain.{
  Json, obj, of_fields, str, HumanReview, ReviewAction, approve, edit_and_approve,
  reject_and_request_rework, same_action, validate_review,
}
use amlguard_eu_ai_agent.Auth.{Actor}
use amlguard_eu_ai_agent.Graph.State.{Services, Submission}
use amlguard_eu_ai_agent.Graph.Nodes.{audit_case}
use amlguard_eu_ai_agent.Graph.Engine.{
  Engine, Runtime, InvestigationRun, review, supply_information, on_world,
}
use amlguard_eu_ai_agent.Api.Schemas.{HumanReviewRequest, valid_information}

-- `ReviewAction(action)`
unfoldable pub review_action : String → Result ReviewAction
review_action a =
    if a == "APPROVE"
    then ok approve
    else if a == "EDIT_AND_APPROVE"
    then ok edit_and_approve
    else if a == "REJECT_AND_REQUEST_REWORK"
    then ok reject_and_request_rework
    else err invalid_payload

-- `ResumeInvestigationRequest(information=decoded)`
unfoldable pub information_of : Json → Result (Dict Json)
information_of (obj fs) =
    if valid_information (of_fields fs) then ok (of_fields fs) else err invalid_payload
information_of _ = err invalid_payload

abbrev pub submission : Actor → Dict Json → String → Submission
submission actor information id = record {
  actor_id = actor.actor_id;
  information = information;
  submission_id = id;
}

abbrev pub decision :
    (case_id : String) (version : ℕ) (action : ReviewAction) (actor : Actor) (rationale : String)
    → HumanReview
decision case_id version action actor rationale = record {
  case_id = case_id;
  recommendation_version = version;
  action = action;
  reviewer_id = actor.actor_id;
  rationale = rationale;
  edited_recommendation = none;
}

module _ (s : Services) (x : Runtime) where
  unfoldable pub submit_form :
      (String → Result Json)
      → (case_id : String) → Actor
      → (information_json submission_id : String) → Action Engine InvestigationRun
  unfolding information_of
  submit_form loads case_id actor information_json submission_id = do
    decoded ← lift (loads information_json)
    information ← lift (information_of decoded)
    supply_information s x case_id (submission actor information submission_id)

  unfoldable pub review_form :
      (case_id : String)
      → Actor
      → (version : ℕ) → (action rationale : String) → Action Engine InvestigationRun
  unfolding review_action
  review_form case_id actor version action rationale = do
    chosen ← lift (review_action action)
    guard (not (same_action chosen edit_and_approve)) invalid_payload
    r ← lift (validate_review (decision case_id version chosen actor rationale))
    review s x r

  unfoldable pub review_body :
      (case_id : String) → Actor → HumanReviewRequest → Action Engine InvestigationRun
  review_body case_id actor body = do
    r ← lift (
        validate_review
          (record (decision case_id body.recommendation_version body.action actor body.rationale) {
            edited_recommendation = body.edited_recommendation;
          }))
    review s x r

  -- The audit of a claim.
  unfoldable pub record_claim : (case_id : String) → Actor → Action Engine (Unit {0})
  record_claim case_id actor = on_world (
      audit_case s "case_review_claimed" actor.actor_id case_id
        (("tenant_id", str actor.tenant_id) ∷ []))
