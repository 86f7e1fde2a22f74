-- ===== src/Graph/Controls.antt =====
-- The node `validate_controls` of src/amlguard/graph/builder.py.
use amlguard_eu_ai_agent.Prelude.{
  String, Bool, true, false, List, [], ◌∷◌, ◌++◌, map, ◌&&◌, ◌||◌, not, ◌==◌, Action, pure, lift,
  ◌>>=◌, ◌>>◌, if◌then◌else◌,
}
use amlguard_eu_ai_agent.Prelude.Lists.{any}
use amlguard_eu_ai_agent.Prelude.Sets.{contains, difference, sorted_set}
use amlguard_eu_ai_agent.Domain.{
  strings, MaterialFinding, Recommendation, RecommendationKind, request_more_information,
  ControlResult, pass, fail, not_applicable, ToolExecution, CaseStatus, hard_blocked,
  waiting_for_information, waiting_for_human_review,
}
use amlguard_eu_ai_agent.Policy.Models.{PolicyChunk}
use amlguard_eu_ai_agent.Evidence.{new_ledger, items, validate_citations}
use amlguard_eu_ai_agent.Governance.HardBlocks.{
  ReleaseStatus, blocked, ready, ReleaseDecision, evaluate,
}
use amlguard_eu_ai_agent.Tools.Service.{prohibited}
use amlguard_eu_ai_agent.Graph.State.{InvestigationState, World, Services}
use amlguard_eu_ai_agent.Graph.Nodes.{notify, audit_case, marked, required}

-- `validate_policy_citations(cited_ids, retrieved)` of src/amlguard/policy/retrieval.py
unfoldable pub validate_policy_citations : List String → List PolicyChunk → List String
unfolding difference
validate_policy_citations cited retrieved = difference cited (map (λ c. c.policy_id) retrieved)

abbrev pub policy_ids_of : List MaterialFinding → List String
policy_ids_of [] = []
policy_ids_of (f ∷ fs) = f.policy_ids ++ policy_ids_of fs

abbrev pub cited_policies : Recommendation → List String
cited_policies r = policy_ids_of (r.material_findings ++ r.counter_indicators)

abbrev pub is_empty {ℓ} : {A : Type ℓ} → List A → Bool
is_empty [] = true
is_empty (x ∷ xs) = false

unfoldable pub evidence_control : List String → ControlResult
evidence_control invalid = record {
  control_id = "EVIDENCE-CITATION-001";
  control_version = "1.0";
  outcome = if is_empty invalid then pass else fail;
  evidence_ids = invalid;
  policy_ids = [];
  severity = if is_empty invalid then "info" else "critical";
  hard_block = not (is_empty invalid);
}

-- The arguments are the invalid citations, the retrieved policies and all citations.
unfoldable pub policy_control : List String → List PolicyChunk → List String → ControlResult
policy_control invalid policies cited =
    if not (is_empty invalid) || not (is_empty policies) && is_empty cited
    then record {
      control_id = "POLICY-CITATION-001";
      control_version = "1.0";
      outcome = fail;
      evidence_ids = [];
      policy_ids = invalid;
      severity = "critical";
      hard_block = true;
    }
    else record {
      control_id = "POLICY-CITATION-001";
      control_version = "1.0";
      outcome = if is_empty policies then not_applicable else pass;
      evidence_ids = [];
      policy_ids = [];
      severity = "info";
      hard_block = false;
    }

unfoldable pub control_results : InvestigationState → Recommendation → List ControlResult
unfolding validate_policy_citations
control_results state r =
    evidence_control (validate_citations (new_ledger state.evidence) r)
    ∷ policy_control (validate_policy_citations (cited_policies r) state.policies) state.policies
        (cited_policies r)
    ∷ []

-- Is an item of the ledger about another case or customer?
unfoldable pub crosses_scope : InvestigationState → Bool
crosses_scope state =
    any (λ e. not (e.case_id == state.case_id) || not (e.customer_id == state.customer_id))
      (items (new_ledger state.evidence))

-- Was a prohibited tool executed for the case?
unfoldable pub executes_prohibited : InvestigationState → List ToolExecution → Bool
executes_prohibited state executions =
    any (λ e. e.case_id == state.case_id && e.authorized && contains prohibited e.tool_name)
      executions

-- `sorted(security_events)`, after both tests added to the set.
unfoldable pub security_events : InvestigationState → List ToolExecution → List String
unfolding crosses_scope executes_prohibited
security_events state executions = sorted_set (
    (if executes_prohibited state executions then "prohibited_action_execution" ∷ [] else [])
    ++ (if crosses_scope state then "successful_cross_scope_access" ∷ [] else [])
    ++ state.security_events)

unfoldable pub decision : InvestigationState → List ToolExecution → Recommendation → ReleaseDecision
unfolding control_results security_events
decision state executions r = evaluate (control_results state r) (security_events state executions)

abbrev pub waiting_status : RecommendationKind → CaseStatus
waiting_status request_more_information = waiting_for_information
waiting_status _ = waiting_for_human_review

abbrev pub release_status : ReleaseStatus → RecommendationKind → CaseStatus
release_status blocked kind = hard_blocked
release_status ready kind = waiting_status kind

module _ (s : Services) where
  -- `if decision.hard_blocks:` the audit event.
  unfoldable pub audit_blocks : InvestigationState → List String → Action World Unit
  audit_blocks state [] = pure tt
  audit_blocks state (b ∷ bs) =
      audit_case s "investigation_hard_blocked" state.actor_id state.case_id
        (("hard_blocks", strings (b ∷ bs)) ∷ [])

  -- `validate_controls`, after it read the tool executions.
  unfoldable pub validate_with :
      InvestigationState → List ToolExecution → Action World InvestigationState
  unfolding audit_blocks decision
  validate_with state executions = do
    r ← lift (required state.recommendation)
    let d = decision state executions r
    marked s state.case_id (release_status d.status r.recommendation)
    audit_blocks state d.hard_blocks
    notify s "controls_evaluated"
    pure (record state {
      control_results = control_results state r;
      security_events = security_events state executions;
      hard_blocks = d.hard_blocks;
      status = release_status d.status r.recommendation;
    })

  unfoldable pub validate : InvestigationState → Action World InvestigationState
  unfolding validate_with
  validate state w = validate_with state w.tools.executions w
