-- ===== src/Graph/Nodes.antt =====
-- The nodes of src/amlguard/graph/builder.py, without the control validation. A node takes the
-- state and returns the state with its updates merged in. Spans, logs, metrics and the progress
-- hook, whose errors are suppressed, are left out.
use Prim.Native.String.{◌++◌ as str_append}
use amlguard_eu_ai_agent.Prelude.{
  String, Bool, true, false, Option, none, some, [], ◌∷◌, ◌++◌, ◌+◌, map, Exception, Result, ok,
  err, Action, pure, lift, ◌>>=◌, ◌>>◌, unknown_key, external_failure, if◌then◌else◌,
}
use amlguard_eu_ai_agent.Prelude.Dict.{Dict, keys}
use amlguard_eu_ai_agent.Prelude.Sets.{sorted_set}
use amlguard_eu_ai_agent.Domain.{
  Json, num, str, obj, to_fields, strings, EvidenceItem, Recommendation, HumanReview, CaseStatus,
  running, completed, failed, hard_blocked, rework_required, ReviewAction, edit_and_approve,
  reject_and_request_rework, validate_review, same_action,
}
use amlguard_eu_ai_agent.Evidence.{evidence_from_model}
use amlguard_eu_ai_agent.Tools.Repository
use amlguard_eu_ai_agent.Tools.Repository.{Repository}
use amlguard_eu_ai_agent.Tools.Service
use amlguard_eu_ai_agent.Tools.Service.{CaseAuthorization, on_repository}
use amlguard_eu_ai_agent.Graph.State.{
  InvestigationState, Selection, Submission, World, Services, on_tools,
}

abbrev pub on_cases : {A : Type 0} → Action Repository A → Action World A
on_cases m = on_tools (on_repository m)

abbrev pub required : {A : Type 0} → Option A → Result A
required none = err unknown_key
required (some a) = ok a

abbrev pub selected : Selection → InvestigationState → InvestigationState
selected sel state = record state {
  policies = map (λ m. m.chunk) sel.matches;
  policy_applicability_facts = sel.facts;
  policy_retrieval = sel.matches;
  policy_as_of_date = some sel.as_of_date;
  status = running;
}

-- The review as it is validated: its case and version are those of the state.
abbrev pub reviewed : InvestigationState → HumanReview → HumanReview
reviewed state payload = record payload {
  case_id = state.case_id;
  recommendation_version = state.recommendation_version;
}

abbrev pub is_hard_blocked : CaseStatus → Bool
is_hard_blocked hard_blocked = true
is_hard_blocked _ = false

abbrev pub review_status : ReviewAction → CaseStatus
review_status reject_and_request_rework = rework_required
review_status _ = completed

abbrev pub review_feedback : HumanReview → Option String
review_feedback review =
    if same_action review.action reject_and_request_rework then some review.rationale else none

module _ (s : Services) where
  -- `await trajectory_hook(run_id, event, …)`
  unfoldable pub notify : String → Action World Unit
  notify event w = (
    if s.hook_raises w.events event then err external_failure else ok tt,
    record w { events = w.events ++ event ∷ [] },
  )

  -- `with suppress(Exception): await trajectory_hook(…)`
  unfoldable pub notify_suppressed : String → Action World Unit
  unfolding notify
  notify_suppressed event w = (ok tt, (notify event w).1)

  abbrev pub audit_case : String → String → String → Dict Json → Action World Unit
  audit_case event actor_id case_id payload =
      on_cases (Repository.audit s.external.digest event actor_id case_id payload)

  abbrev pub marked : String → CaseStatus → Action World Unit
  marked case_id status = on_cases (Repository.set_status case_id status)

  unfoldable pub load_and_retrieve : InvestigationState → Action World InvestigationState
  unfolding notify
  load_and_retrieve state = do
    let auth : CaseAuthorization = record {
      case_id = state.case_id;
      customer_id = state.customer_id;
      actor_id = state.actor_id;
    }
    marked state.case_id running
    alert ← on_tools (Service.get_alert s.external auth state.alert_id)
    customer ← on_tools (Service.get_customer_profile s.external auth state.customer_id)
    kyc ← on_tools (Service.get_kyc_profile s.external auth state.customer_id)
    transactions ← on_tools (Service.get_transactions s.external auth state.customer_id 250)
    let evidence = alert ∷ customer ∷ kyc ∷ transactions
    sel ← lift (s.select_policies evidence)
    notify "evidence_retrieved"
    notify "policies_retrieved"
    pure (record (selected sel state) { evidence = evidence })

  -- `await llm.recommend(…)`
  unfoldable pub recommend : InvestigationState → Action World Recommendation
  recommend state w = (
    s.recommend w.llm_calls state.evidence state.policies state.policy_retrieval
        state.context_condition state.reviewer_feedback,
    record w { llm_calls = w.llm_calls + 1 },
  )

  unfoldable pub draft : InvestigationState → Action World InvestigationState
  unfolding notify recommend
  draft state = do
    recommendation ← recommend state
    version ← on_cases (Repository.save_recommendation state.case_id recommendation)
    notify "recommendation_drafted"
    pure (record state {
      recommendation = some recommendation;
      recommendation_version = version;
      reviewer_feedback = none;
    })

  abbrev pub information_evidence : InvestigationState → Submission → EvidenceItem
  information_evidence state sub =
      let id = s.information_id state.case_id state.recommendation_version sub.submission_id in
      evidence_from_model s.external.digest (str_append "INFO-" id) "supplemental_information" id
        state.case_id state.customer_id (("information", obj (to_fields sub.information)) ∷ [])
        "authenticated user submission through the investigation resume API"

  abbrev pub information_payload : InvestigationState → Submission → Dict Json
  information_payload state sub =
      ("fields", strings (sorted_set (keys sub.information)))
      ∷ ("evidence_id", str (information_evidence state sub).evidence_id)
      ∷ ("recommendation_version", num state.recommendation_version)
      ∷ []

  -- `collect_information`, resumed with a submission.
  unfoldable pub collect_information :
      InvestigationState → Submission → Action World InvestigationState
  unfolding notify
  collect_information state sub = do
    lift (required state.recommendation)
    let evidence = information_evidence state sub
    audit_case "case_information_supplied" sub.actor_id state.case_id
        (information_payload state sub)
    marked state.case_id running
    notify "case_information_supplied"
    let updated = state.evidence ++ evidence ∷ []
    sel ← lift (s.select_policies updated)
    notify "policies_retrieved"
    pure (record (selected sel state) { evidence = updated })

  -- The second write of an edited and approved recommendation.
  unfoldable pub save_edited : String → ReviewAction → Option Recommendation → Action World Unit
  save_edited case_id edit_and_approve (some edited) = do
    on_cases (Repository.save_recommendation case_id edited)
    pure tt
  save_edited case_id _ _ = pure tt

  unfoldable pub save_edit : InvestigationState → HumanReview → Action World Unit
  unfolding save_edited
  save_edit state review = save_edited state.case_id review.action review.edited_recommendation

  -- `human_review` below its guard, resumed with a review.
  unfoldable pub review_case : InvestigationState → HumanReview → Action World InvestigationState
  unfolding notify save_edit
  review_case state payload = do
    review ← lift (validate_review (reviewed state payload))
    on_cases (Repository.save_review review)
    save_edit state review
    marked state.case_id (review_status review.action)
    notify "human_review"
    pure (record state {
      review = some review;
      reviewer_feedback = review_feedback review;
      status = review_status review.action;
    })

  unfoldable pub human_review : InvestigationState → HumanReview → Action World InvestigationState
  unfolding review_case
  human_review state payload =
      if is_hard_blocked state.status
      then pure (record state { status = hard_blocked })
      else review_case state payload

  unfoldable pub record_failure :
      InvestigationState → String → Exception → Action World InvestigationState
  unfolding notify_suppressed
  record_failure state stage error = do
    marked state.case_id failed
    audit_case "investigation_failed" state.actor_id state.case_id (s.failure_json stage error)
    notify_suppressed "investigation_failed"
    pure (record state {
      status = failed;
      errors = state.errors ++ record { stage = stage; error = error } ∷ [];
    })

  -- `guarded(stage, node)`: an exception of the node becomes the state FAILED. Only an exception of
  -- `record_failure` itself leaves the graph.
  unfoldable pub recover :
      InvestigationState → String → Result InvestigationState → Action World InvestigationState
  unfolding record_failure
  recover state stage (ok state') = pure state'
  recover state stage (err error) = record_failure state stage error

  unfoldable pub guarded :
      String
      → (InvestigationState → Action World InvestigationState)
      → InvestigationState
      → Action World InvestigationState
  unfolding record_failure recover
  guarded stage node state w = let (r, w') = node state w in recover state stage r w'
