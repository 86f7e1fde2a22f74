-- ===== src/Graph/Decided.antt =====
-- The stages that decide: the control validation and the human review.
use amlguard_eu_ai_agent.Graph.Outcomes.{
  Reviewed, Validated, with_review, with_review-Reviewed, required-some, with_decision,
  with_decision-Validated,
}
use amlguard_eu_ai_agent.Prelude.{◌≡◌, refl, List, ap, some, String, ◌∷◌, [], false}
use amlguard_eu_ai_agent.Prelude.Triples.{Triple, Triple-pure, Triple-bind, Triple-weaken}
use amlguard_eu_ai_agent.Graph.State.{InvestigationState, Services}
use amlguard_eu_ai_agent.Graph.Nodes.{
  is_hard_blocked, review_case, human_review, reviewed, save_edit, review_status,
}
use amlguard_eu_ai_agent.Graph.Waiting.{Supported}
use amlguard_eu_ai_agent.Graph.Stages.{Settled, marking_again}
use amlguard_eu_ai_agent.Graph.Controls.{validate}
use amlguard_eu_ai_agent.Prelude.{none, some}
use amlguard_eu_ai_agent.Graph.Sync.{Shows-Knows, Shows, Knows}
use amlguard_eu_ai_agent.Domain.{
  HumanReview, CaseStatus, approve, edit_and_approve, reject_and_request_rework, ReviewAction,
  strings, ToolExecution, validate_review, waiting_for_human_review, Recommendation,
}
use amlguard_eu_ai_agent.Prelude.{none, some}
use amlguard_eu_ai_agent.Graph.Sync.{
  Shows-Knows, Shows, Knows, Steady, lift-Steady, notify-Steady, audit_case-Shows,
  save_review-Steady, save_recommendation-Steady,
}
use amlguard_eu_ai_agent.Graph.Controls.{audit_blocks, validate_with, validate}
use amlguard_eu_ai_agent.Prelude.Triples.{Triple-given, Triple-lift}
use amlguard_eu_ai_agent.Prelude.{Option, List, [], String}
use amlguard_eu_ai_agent.Graph.Controls.{decision, release_status}
use amlguard_eu_ai_agent.Graph.Nodes.{save_edited, required}

module _ (s : Services) where
  save_edited-Steady :
      (k : String) (status : CaseStatus) (action : ReviewAction) (edited : Option Recommendation)
      → Steady k status (save_edited s k action edited)
  unfolding save_edited
  save_edited-Steady k status edit_and_approve (some edited) =
      Triple-bind _ _ (save_recommendation-Steady k status k edited)
        (λ v. Triple-pure _ _ _ (λ w h. h))
  save_edited-Steady k status edit_and_approve none = Triple-pure _ _ _ (λ w h. h)
  save_edited-Steady k status approve edited = Triple-pure _ _ _ (λ w h. h)
  save_edited-Steady k status reject_and_request_rework edited = Triple-pure _ _ _ (λ w h. h)

  save_edit-Steady :
      (st : InvestigationState) (r : HumanReview) → Steady st.case_id st.status (save_edit s st r)
  unfolding save_edit
  save_edit-Steady st r = save_edited-Steady st.case_id st.status r.action r.edited_recommendation

  review_case-Settled :
      (st : InvestigationState) (payload : HumanReview)
      → Supported st
      → Triple
          (Shows st.case_id st.status)
          (review_case s st payload)
          (Settled st.case_id Reviewed)
          (Knows st.case_id)
  unfolding review_case
  review_case-Settled st payload h =
      let k = st.case_id in
      Triple-bind _ _ (lift-Steady k st.status (validate_review (reviewed st payload))) (λ r.
        Triple-bind _ _ (save_review-Steady k st.status r) (λ _.
          Triple-bind _ _ (save_edit-Steady st r) (λ _.
            Triple-bind _ _ (marking_again s k st.status (review_status r.action)) (λ _.
              Triple-bind _ _ (notify-Steady k (review_status r.action) s "human_review") (λ _.
                Triple-pure _ _ (with_review st r) (λ w shows. record {
                  own = refl;
                  shows = shows;
                  allowed = with_review-Reviewed st r h;
                }))))))

  pub human_review-Settled :
      (st : InvestigationState) (payload : HumanReview)
      → st.status ≡ waiting_for_human_review
      → Supported st
      → Triple
          (Shows st.case_id st.status)
          (human_review s st payload)
          (Settled st.case_id Reviewed)
          (Knows st.case_id)
  unfolding human_review
  human_review-Settled st payload e h =
      let open_state : is_hard_blocked st.status ≡ false = ap is_hard_blocked e in
      rw open_state (review_case-Settled st payload h)

  audit_blocks-Shows :
      (st : InvestigationState) (status : CaseStatus) (blocks : List String)
      → Triple
          (Shows st.case_id status)
          (audit_blocks s st blocks)
          (λ _. Shows st.case_id status)
          (Knows st.case_id)
  unfolding audit_blocks
  audit_blocks-Shows st status [] = Triple-pure _ _ _ (λ w h. h)
  audit_blocks-Shows st status (b ∷ bs) =
      Triple-weaken _ (λ w h. h) (λ a w h. h) (λ w h. absurd h)
        (audit_case-Shows st.case_id status s "investigation_hard_blocked" st.actor_id st.case_id
          (("hard_blocks", strings (b ∷ bs)) ∷ []))

  validate_with-Settled :
      (st : InvestigationState) (ex : List ToolExecution)
      → Triple
          (Shows st.case_id st.status)
          (validate_with s st ex)
          (Settled st.case_id Validated)
          (Knows st.case_id)
  unfolding validate_with
  validate_with-Settled st ex =
      let k = st.case_id in
      Triple-bind _ _ (Triple-lift (Knows k) (required st.recommendation) (λ w h. Shows-Knows h))
        (λ r. Triple-given _ (λ e.
          let d = decision st ex r in
          let status = release_status d.status r.recommendation in
          Triple-bind _ _ (marking_again s k st.status status) (λ _.
            Triple-bind _ _ (audit_blocks-Shows st status d.hard_blocks) (λ _.
              Triple-bind _ _ (notify-Steady k status s "controls_evaluated") (λ _.
                Triple-pure _ _ (with_decision st ex r) (λ w shows. record {
                  own = refl;
                  shows = shows;
                  allowed = with_decision-Validated st ex r (required-some st.recommendation r e);
                }))))))

  pub validate-Settled :
      (st : InvestigationState)
      → Triple
          (Shows st.case_id st.status)
          (validate s st)
          (Settled st.case_id Validated)
          (Knows st.case_id)
  unfolding validate
  validate-Settled st = record { at = λ w h. (validate_with-Settled st w.tools.executions).at w h }
