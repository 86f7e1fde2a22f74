-- ===== src/Graph/Runs.antt =====
-- Every call of the graph returns, shows in the repository the status that it reached, and leaves
-- the thread where `Stands` allows it.
use amlguard_eu_ai_agent.Prelude.{String, ◌≡◌, refl, inl, inr}
use amlguard_eu_ai_agent.Prelude.Triples.{Triple, After, Triple-bind}
use mathlib.Core.Path.{subst}
use amlguard_eu_ai_agent.Prelude.{Result, ok, err, ◌⊎◌, Action}
use amlguard_eu_ai_agent.Graph.Flow.{continue_route}
use amlguard_eu_ai_agent.Domain.{HumanReview, CaseStatus, waiting_for_human_review, failed, running}
use amlguard_eu_ai_agent.Graph.State.{InvestigationState, World, Services, Submission}
use amlguard_eu_ai_agent.Graph.Nodes.{
  load_and_retrieve, draft, collect_information, human_review, guarded,
}
use amlguard_eu_ai_agent.Graph.Controls.{validate}
use amlguard_eu_ai_agent.Graph.Flow.{
  Thread, after_validation, validate_stage, after_draft, draft_stage, go_on, invoke,
  resume_information, resume_review, route_after_validation, route_after_stage, route_after_review,
}
use amlguard_eu_ai_agent.Graph.Sync.{Shows, Knows}
use amlguard_eu_ai_agent.Graph.Waiting.{Stands, Supported}
use amlguard_eu_ai_agent.Graph.Stages.{
  Settled, OrFailed, guarded-Settled, load_and_retrieve-Settled, draft-Settled,
  collect_information-Settled,
}
use amlguard_eu_ai_agent.Graph.Outcomes.{Validated, Reviewed}
use amlguard_eu_ai_agent.Graph.Decided.{validate-Settled, human_review-Settled}

-- A thread about the case `k`, whose status the repository shows, and which may wait or end.
pub record Settles (k : String) (t : Thread) (w : World) : Type 0 where
  pub own : t.state.case_id ≡ k
  pub shows : Shows k t.state.status w
  pub stands : Stands t.pending t.state

route_after_stage_lem : (c : CaseStatus) → (route_after_stage c ≡ continue_route) ⊎ (c ≡ failed)
unfolding route_after_stage
route_after_stage_lem failed = inr refl
route_after_stage_lem _ = inl refl

-- A next stage of the same case.
resumed :
    (k : String) (st : InvestigationState) (m : Action World Thread)
    → Triple (Shows st.case_id st.status) m (Settles st.case_id) (λ _. ⊥)
    → (w : World) → st.case_id ≡ k
    → Shows k st.status w
    → After (Settles k) (λ _. ⊥) (m w).0 (m w).1
resumed k st m t w e shows =
    subst (λ j. Shows j st.status w → After (Settles j) (λ _. ⊥) (m w).0 (m w).1) e (t.at w) shows

returns :
    {S A : Type 0} (Q : A → S → Type 0) (x : Result A × S)
    → After Q (λ _. ⊥) x.0 x.1
    → (a : A) × (s : S) × (x ≡ (ok a, s)) × Q a s
returns Q (ok a, s) h = (a, s, refl, h)
returns Q (err e, s) h = absurd h

module _ (s : Services) where
  after_validation-Settles :
      (k : String) (st : InvestigationState)
      → Triple
          (Settled k (OrFailed Validated) st)
          (after_validation s st (route_after_validation st.status))
          (Settles k)
          (λ _. ⊥)
  unfolding after_validation route_after_validation
  after_validation-Settles k st = record {
    at = λ w h. elim h.allowed [
      | inr e ↦ simp e (record { own = h.own; shows = h.shows; stands = inl e })
      | inl (inl e) ↦ simp e (record { own = h.own; shows = h.shows; stands = inr (inl e) })
      | inl (inr (inl e, supported)) ↦
          simp e (record { own = h.own; shows = h.shows; stands = (e, supported) })
      | inl (inr (inr e, supported)) ↦
          simp e (record { own = h.own; shows = h.shows; stands = (e, supported) })
    ];
  }

  validate_stage-Settles :
      (st : InvestigationState)
      → Triple (Shows st.case_id st.status) (validate_stage s st) (Settles st.case_id) (λ _. ⊥)
  unfolding validate_stage
  validate_stage-Settles st =
      Triple-bind _ _
        (guarded-Settled s "validate_controls" (validate s) st _ Validated (validate-Settled s st))
        (after_validation-Settles st.case_id)

  after_draft-Settles :
      (k : String) (st : InvestigationState) (Allowed : InvestigationState → Type 0)
      → Triple
          (Settled k (OrFailed Allowed) st)
          (after_draft s st (route_after_stage st.status))
          (Settles k)
          (λ _. ⊥)
  unfolding after_draft route_after_stage
  after_draft-Settles k st Allowed = record {
    at = λ w h. elim (route_after_stage_lem st.status) [
      | inl e ↦
          simp e (resumed k st (validate_stage s st) (validate_stage-Settles st) w h.own h.shows)
      | inr e ↦ simp e (record { own = h.own; shows = h.shows; stands = inl e })
    ];
  }

  draft_stage-Settles :
      (st : InvestigationState)
      → Triple (Shows st.case_id st.status) (draft_stage s st) (Settles st.case_id) (λ _. ⊥)
  unfolding draft_stage
  draft_stage-Settles st =
      Triple-bind _ _
        (guarded-Settled s "draft_recommendation" (draft s) st _ (λ x. x.status ≡ st.status)
          (draft-Settled s st))
        (λ x. after_draft-Settles st.case_id x (λ x. x.status ≡ st.status))

  go_on-Settles :
      (k : String) (st : InvestigationState) (Allowed : InvestigationState → Type 0)
      → Triple
          (Settled k (OrFailed Allowed) st)
          (go_on s st (route_after_stage st.status))
          (Settles k)
          (λ _. ⊥)
  unfolding go_on route_after_stage
  go_on-Settles k st Allowed = record {
    at = λ w h. elim (route_after_stage_lem st.status) [
      | inl e ↦ simp e (resumed k st (draft_stage s st) (draft_stage-Settles st) w h.own h.shows)
      | inr e ↦ simp e (record { own = h.own; shows = h.shows; stands = inl e })
    ];
  }

  redraft-Settles :
      (k : String) (st : InvestigationState)
      → Triple
          (Settled k (OrFailed Reviewed) st)
          (go_on s st (route_after_review st.status))
          (Settles k)
          (λ _. ⊥)
  unfolding go_on route_after_review guarded
  redraft-Settles k st = record {
    at = λ w h. elim h.allowed [
      | inr e ↦ simp e (record { own = h.own; shows = h.shows; stands = inl e })
      | inl (inl e) ↦
          simp e (resumed k st (draft_stage s st) (draft_stage-Settles st) w h.own h.shows)
      | inl (inr (e, approved)) ↦
          simp e (record { own = h.own; shows = h.shows; stands = inr (inr (e, approved)) })
    ];
  }

  pub invoke-Settles :
      (st : InvestigationState)
      → Triple (Knows st.case_id) (invoke s st) (Settles st.case_id) (λ _. ⊥)
  unfolding invoke
  invoke-Settles st =
      Triple-bind _ _
        (guarded-Settled s "load_and_retrieve" (load_and_retrieve s) st _ (λ x. x.status ≡ running)
          (load_and_retrieve-Settled s st))
        (λ x. go_on-Settles st.case_id x (λ x. x.status ≡ running))

  pub resume_information-Settles :
      (st : InvestigationState) (sub : Submission)
      → Triple
          (Shows st.case_id st.status)
          (resume_information s st sub)
          (Settles st.case_id)
          (λ _. ⊥)
  unfolding resume_information
  resume_information-Settles st sub =
      Triple-bind _ _
        (guarded-Settled s "collect_information" (λ x. collect_information s x sub) st _
          (λ x. x.status ≡ running) (collect_information-Settled s st sub))
        (λ x. go_on-Settles st.case_id x (λ x. x.status ≡ running))

  pub resume_review-Settles :
      (st : InvestigationState) (payload : HumanReview)
      → st.status ≡ waiting_for_human_review
      → Supported st
      → Triple
          (Shows st.case_id st.status)
          (resume_review s st payload)
          (Settles st.case_id)
          (λ _. ⊥)
  unfolding resume_review
  resume_review-Settles st payload e h =
      Triple-bind _ _
        (guarded-Settled s "human_review" (λ x. human_review s x payload) st _ Reviewed
          (human_review-Settled s st payload e h))
        (redraft-Settles st.case_id)

  -- A run of the graph from the start, of a case that the repository has, returns and never raises;
  -- the repository then shows the status that the state has, and the thread waits or ends only as
  -- `Stands` allows: for information or for a review only with a recommendation that passed every
  -- control, and at the end only FAILED, HARD_BLOCKED, or COMPLETED by an accepting review.
  pub invoke_returns :
      (st : InvestigationState) (w : World)
      → Knows st.case_id w
      → (t : Thread) × (w' : World) × (invoke s st w ≡ (ok t, w')) × Settles st.case_id t w'
  invoke_returns st w h = returns _ (invoke s st w) ((invoke-Settles st).at w h)

  -- The same of a run that is resumed with the information that was asked for, on a case whose
  -- status the repository shows.
  pub resume_information_returns :
      (st : InvestigationState) (sub : Submission) (w : World)
      → Shows st.case_id st.status w
      → (t : Thread) × (w' : World) × (resume_information s st sub w ≡ (ok t, w'))
        × Settles st.case_id t w'
  resume_information_returns st sub w h =
      returns _ (resume_information s st sub w) ((resume_information-Settles st sub).at w h)

  -- The same of a run that is resumed with a review, valid or not, when the state waits for the
  -- human review and its recommendation passed every control.
  pub resume_review_returns :
      (st : InvestigationState) (payload : HumanReview) (w : World)
      → st.status ≡ waiting_for_human_review
      → Supported st
      → Shows st.case_id st.status w
      → (t : Thread) × (w' : World) × (resume_review s st payload w ≡ (ok t, w'))
        × Settles st.case_id t w'
  resume_review_returns st payload w waits supported h =
      returns _ (resume_review s st payload w)
        ((resume_review-Settles st payload waits supported).at w h)
