-- ===== src/Graph/Outcomes.antt =====
-- What the control validation and the human review leave in the state.
use amlguard_eu_ai_agent.Prelude.{◌≡◌, refl, ◌⊎◌, inl, inr, List, ap, some, sym, ◌∙◌}
use amlguard_eu_ai_agent.Graph.State.{InvestigationState}
use amlguard_eu_ai_agent.Graph.Nodes.{review_status, review_feedback}
use amlguard_eu_ai_agent.Graph.Waiting.{Supported, Approved}
use amlguard_eu_ai_agent.Prelude.{none, some}
use amlguard_eu_ai_agent.Domain.{
  HumanReview, rework_required, hard_blocked, approve, edit_and_approve, reject_and_request_rework,
  ReviewAction, ToolExecution, waiting_for_information, completed, waiting_for_human_review,
  Recommendation,
}
use amlguard_eu_ai_agent.Prelude.{none, some}
use amlguard_eu_ai_agent.Prelude.{Option, List, ok}
use amlguard_eu_ai_agent.Graph.Controls.{
  crosses_scope, executes_prohibited, decision, release_status, waiting_status, control_results,
  security_events,
}
use amlguard_eu_ai_agent.Graph.Cleared.{
  decision-Cleared_iff, ready_decision, Cleared-security_events,
}
use amlguard_eu_ai_agent.Graph.Nodes.{required}
use amlguard_eu_ai_agent.Governance.HardBlocks.{ReleaseStatus, blocked, ready}
use amlguard_eu_ai_agent.Domain.{RecommendationKind, request_more_information}

approve≢reject : ¬ (approve ≡ reject_and_request_rework)
approve≢reject e = cc

edit≢reject : ¬ (edit_and_approve ≡ reject_and_request_rework)
edit≢reject e = cc

-- What the human review leaves.
abbrev pub Reviewed : InvestigationState → Type 0
Reviewed st = (st.status ≡ rework_required) ⊎ (st.status ≡ completed) × Approved st

-- What the control validation leaves.
abbrev pub Validated : InvestigationState → Type 0
Validated st =
    (st.status ≡ hard_blocked)
    ⊎ ((st.status ≡ waiting_for_information) ⊎ (st.status ≡ waiting_for_human_review))
      × Supported st

abbrev pub with_review : InvestigationState → HumanReview → InvestigationState
with_review st r = record st {
  review = some r;
  reviewer_feedback = review_feedback r;
  status = review_status r.action;
}

pub with_review-Reviewed :
    (st : InvestigationState) (r : HumanReview) → Supported st → Reviewed (with_review st r)
unfolding crosses_scope executes_prohibited
with_review-Reviewed st r h = decide r.action refl
  where
    same : Supported (with_review st r)
    same = record {
      executions = h.executions;
      recommendation = h.recommendation;
      drafted = h.drafted;
      unblocked = h.unblocked;
      cleared = record {
        evidence_known = h.cleared.evidence_known;
        policies_known = h.cleared.policies_known;
        policy_cited = h.cleared.policy_cited;
        in_scope = h.cleared.in_scope;
        none_prohibited = h.cleared.none_prohibited;
        none_reported = h.cleared.none_reported;
      };
    }

    decide : (a : ReviewAction) → r.action ≡ a → Reviewed (with_review st r)
    decide reject_and_request_rework e = inl (ap review_status e)
    decide approve e = inr (
      ap review_status e,
      record {
        review = r;
        given = refl;
        supported = same;
        accepted = (λ x. absurd (approve≢reject (sym e ∙ x)));
      },
    )
    decide edit_and_approve e = inr (
      ap review_status e,
      record {
        review = r;
        given = refl;
        supported = same;
        accepted = (λ x. absurd (edit≢reject (sym e ∙ x)));
      },
    )

pub required-some :
    (o : Option Recommendation) (r : Recommendation) → required o ≡ ok r → o ≡ some r
required-some none r e = cc
required-some (some a) r e = cc

abbrev pub with_decision :
    InvestigationState → List ToolExecution → Recommendation → InvestigationState
with_decision st ex r = record st {
  control_results = control_results st r;
  security_events = security_events st ex;
  hard_blocks = (decision st ex r).hard_blocks;
  status = release_status (decision st ex r).status r.recommendation;
}

with_decision-Supported :
    (st : InvestigationState) (ex : List ToolExecution) (r : Recommendation)
    → st.recommendation ≡ some r
    → (decision st ex r).status ≡ ready
    → Supported (with_decision st ex r)
unfolding crosses_scope executes_prohibited
with_decision-Supported st ex r e passed =
    let c = (decision-Cleared_iff st ex r).0 passed in
    record {
      executions = ex;
      recommendation = r;
      drafted = e;
      unblocked = ready_decision st ex r passed;
      cleared = record {
        evidence_known = c.evidence_known;
        policies_known = c.policies_known;
        policy_cited = c.policy_cited;
        in_scope = c.in_scope;
        none_prohibited = c.none_prohibited;
        none_reported = Cleared-security_events st ex r c;
      };
    }

pub with_decision-Validated :
    (st : InvestigationState) (ex : List ToolExecution) (r : Recommendation)
    → st.recommendation ≡ some r
    → Validated (with_decision st ex r)
with_decision-Validated st ex r e = decide (decision st ex r).status refl
  where
    waits :
        (k : RecommendationKind)
        → (waiting_status k ≡ waiting_for_information)
          ⊎ (waiting_status k ≡ waiting_for_human_review)
    waits request_more_information = inl refl
    waits _ = inr refl

    decide : (x : ReleaseStatus) → (decision st ex r).status ≡ x → Validated (with_decision st ex r)
    decide blocked b = inl (ap (λ x. release_status x r.recommendation) b)
    decide ready b = inr (rw b (waits r.recommendation), with_decision-Supported st ex r e b)
