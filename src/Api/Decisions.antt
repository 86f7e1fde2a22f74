-- ===== src/Api/Decisions.antt =====
-- What the routes of src/amlguard/api/app.py do with a review that the engine refuses, and with a
-- claim of a review.
use amlguard_eu_ai_agent.Prelude.{
  subst, sym, ℕ, String, true, false, ◌≡◌, refl, some, [], none, ◌∷◌, ◌=ℕ◌, leb, stale_version,
}
use amlguard_eu_ai_agent.Prelude.Dict.{lookup, is_none}
use amlguard_eu_ai_agent.Domain.{CaseData, validate_review, approve}
use amlguard_eu_ai_agent.Auth.{Actor, review, authorize_case, has_required_role}
use amlguard_eu_ai_agent.Tools.Repository
use amlguard_eu_ai_agent.Graph.State.{Services}
use amlguard_eu_ai_agent.Graph.Sync.{cases_of}
use Prim.Native.String.{count}
use amlguard_eu_ai_agent.Graph.Nodes.{is_hard_blocked}
use amlguard_eu_ai_agent.Graph.Engine
use amlguard_eu_ai_agent.Graph.Engine.{Runtime, to_run, run_of, values_of}
use amlguard_eu_ai_agent.Api.Http.{App, replied, refused, is_value_error}
use amlguard_eu_ai_agent.Api.Schemas.{HumanReviewRequest, valid_decision}
use amlguard_eu_ai_agent.Api.Access.{allow, case_for_action, authorized, workspace, workspace_of}
use amlguard_eu_ai_agent.Api.Forms.{review_body, review_form, review_action}
use amlguard_eu_ai_agent.Api.Routes.{human_review}
use amlguard_eu_ai_agent.Api.Pages.{
  ui_human_review, shown_result, shown_now, shown, workspace_page, problem,
}

abbrev pub approval : (version : ℕ) (rationale : String) → HumanReviewRequest
approval version rationale = record {
  recommendation_version = version;
  action = approve;
  rationale = rationale;
  edited_recommendation = none;
}

module _ (s : Services) (x : Runtime) where
  -- A reviewer who may review a case, and whose valid approval names another version of the
  -- recommendation than the case has, is answered 500 by the JSON route, and the workspace of the
  -- case with the problem by the form, where nothing changes in either; the case is not hard blocked.
  pub human_review_stale :
      (k : String) (actor : Actor) (version : ℕ) (rationale : String) (app : App) (c : CaseData)
      → has_required_role ("reviewer" ∷ []) actor ≡ true
      → lookup k (cases_of app.engine.world) ≡ some c
      → c.case_id ≡ k
      → is_none (authorize_case actor c review) ≡ true
      → is_hard_blocked c.status ≡ false
      → (version =ℕ c.recommendation_version) ≡ false
      → leb 1 version ≡ true
      → leb 1 (count rationale) ≡ true
      → leb (count rationale) 4000 ≡ true
      → (human_review s x (approval version rationale) k actor app ≡ (refused 500, app))
        × (ui_human_review s x k version "APPROVE" rationale actor app ≡ (
          replied (
              workspace_page
                (workspace_of (run_of c (values_of c (lookup k app.engine.threads))) actor c)
                (problem stale_version)),
          app,
        ))
  unfolding is_value_error validate_review review_action human_review ui_human_review allow
      case_for_action authorized review_body review_form Engine.review valid_decision
      Repository.get_case shown_result shown_now shown workspace to_run
  human_review_stale k actor version rationale app c role found own may free stale one low high =
      let at : lookup c.case_id (cases_of app.engine.world) ≡ some c =
        subst (λ y. lookup y (cases_of app.engine.world) ≡ some c) (sym own) found in
      (
        rw role (rw (one, low, high) (rw found (rw may (rw found (rw (free, stale) refl))))),
        rw role (
            rw (one, low, high)
              (rw found (rw may (rw found (rw (free, stale) (rw found (rw at refl))))))),
      )
