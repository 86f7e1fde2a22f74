-- ===== src/Graph/Cleared.antt =====
-- What a READY release decision says of the recommendation, the evidence and the policies.
use amlguard_eu_ai_agent.Prelude.{
  String, Bool, true, false, ◌≡◌, refl, sym, ◌∙◌, List, [], ◌∷◌, map, ◌&&◌, ◌||◌, not, ◌==◌, arith,
  ◌↔◌, eq_refl,
}
use amlguard_eu_ai_agent.Prelude.Lists.{any}
use amlguard_eu_ai_agent.Prelude.Sets.{
  contains, contains-difference, contains-sorted_set, contains-append,
}
use amlguard_eu_ai_agent.Domain.{ToolExecution, Recommendation}
use amlguard_eu_ai_agent.Evidence.{new_ledger, validate_citations, cited_evidence}
use amlguard_eu_ai_agent.Evidence.Citations.{contains-validate_citations, lookup-new_ledger}
use amlguard_eu_ai_agent.Governance.HardBlocks.{
  fails_control, critical_events, evaluate-ready_iff, ready, ready_iff,
}
use amlguard_eu_ai_agent.Graph.State.{InvestigationState}
use amlguard_eu_ai_agent.Graph.Controls.{
  is_empty, crosses_scope, executes_prohibited, cited_policies, control_results, evidence_control,
  policy_control, validate_policy_citations, decision, security_events,
}

-- Every control passes: each cited evidence identifier is one of the evidence, each cited policy is
-- one of the retrieved, some policy is cited when any was retrieved, no evidence is about another
-- case or customer, no prohibited tool was executed, and no critical event was reported.
pub record Cleared (st : InvestigationState) (executions : List ToolExecution) (r : Recommendation)
    : Type 0 where
  pub evidence_known :
      (a : String)
      → (not (any (λ e. e.evidence_id == a) st.evidence) && contains (cited_evidence r) a) ≡ false
  pub policies_known :
      (a : String)
      → (not (contains (map (λ c. c.policy_id) st.policies) a) && contains (cited_policies r) a)
        ≡ false
  pub policy_cited : (not (is_empty st.policies) && is_empty (cited_policies r)) ≡ false
  pub in_scope : crosses_scope st ≡ false
  pub none_prohibited : executes_prohibited st executions ≡ false
  pub none_reported :
      (a : String) → (contains st.security_events a && contains critical_events a) ≡ false

contains-is_empty : (xs : List String) (a : String) → is_empty xs ≡ true → contains xs a ≡ false
contains-is_empty [] a h = refl
contains-is_empty (x ∷ xs) a h = ground arith

is_empty-contains : (xs : List String) → ((a : String) → contains xs a ≡ false) → is_empty xs ≡ true
is_empty-contains [] h = refl
is_empty-contains (x ∷ xs) h = ground (arith, h x, eq_refl x)

module _ (st : InvestigationState) (r : Recommendation) where
  abbrev invalid_evidence : List String
  invalid_evidence = validate_citations (new_ledger st.evidence) r

  abbrev invalid_policies : List String
  invalid_policies = validate_policy_citations (cited_policies r) st.policies

  -- Which of the two controls fails.
  fails_control-control_results :
      (a : String)
      → fails_control a (control_results st r) ≡ (
          ("EVIDENCE-CITATION-001" == a) && not (is_empty invalid_evidence)
          || ("POLICY-CITATION-001" == a)
            && (not (is_empty invalid_policies)
                || not (is_empty st.policies) && is_empty (cited_policies r)))
  unfolding control_results evidence_control policy_control
  fails_control-control_results a = ground arith

  contains-invalid_policies :
      (a : String)
      → contains invalid_policies a
        ≡ (not (contains (map (λ c. c.policy_id) st.policies) a) && contains (cited_policies r) a)
  unfolding validate_policy_citations
  contains-invalid_policies a =
      contains-difference (cited_policies r) (map (λ c. c.policy_id) st.policies) a

  contains-invalid_evidence :
      (a : String)
      → contains invalid_evidence a
        ≡ (not (any (λ e. e.evidence_id == a) st.evidence) && contains (cited_evidence r) a)
  contains-invalid_evidence a =
      rw (contains-validate_citations (new_ledger st.evidence) r a, lookup-new_ledger a st.evidence)

contains-security_events :
    (st : InvestigationState) (ex : List ToolExecution) (a : String)
    → contains (security_events st ex) a ≡ (
        executes_prohibited st ex && ("prohibited_action_execution" == a)
        || crosses_scope st && ("successful_cross_scope_access" == a)
        || contains st.security_events a)
unfolding security_events
contains-security_events st ex a =
    rw (contains-sorted_set, contains-append, contains-append) (ground arith)

abbrev fails : InvestigationState → List ToolExecution → Recommendation → String → Bool
fails st ex r a =
    fails_control a (control_results st r)
    || contains (security_events st ex) a && contains critical_events a

module _ (st : InvestigationState) (ex : List ToolExecution) (r : Recommendation) where
  passes→Cleared : ((a : String) → fails st ex r a ≡ false) → Cleared st ex r
  passes→Cleared h =
      let evidence = h "EVIDENCE-CITATION-001" in
      let policy = h "POLICY-CITATION-001" in
      let policy_control = fails_control-control_results st r "POLICY-CITATION-001" in
      record {
        evidence_known = λ a.
            sym (contains-invalid_evidence st r a)
            ∙ contains-is_empty (invalid_evidence st r) a (
                ground
                  (arith, evidence, fails_control-control_results st r "EVIDENCE-CITATION-001"));
        policies_known = λ a.
            sym (contains-invalid_policies st r a)
            ∙ contains-is_empty (invalid_policies st r) a (ground (arith, policy, policy_control));
        policy_cited = ground (arith, policy, policy_control);
        in_scope = ground (
          arith,
          h "successful_cross_scope_access",
          contains-security_events st ex "successful_cross_scope_access",
        );
        none_prohibited = ground (
          arith,
          h "prohibited_action_execution",
          contains-security_events st ex "prohibited_action_execution",
        );
        none_reported = λ a. ground (arith, h a, contains-security_events st ex a);
      }

  Cleared→passes : Cleared st ex r → (a : String) → fails st ex r a ≡ false
  Cleared→passes c a = ground (
    arith,
    c.in_scope,
    c.none_prohibited,
    c.none_reported a,
    c.policy_cited,
    is_empty-contains (invalid_evidence st r)
        (λ b. contains-invalid_evidence st r b ∙ c.evidence_known b),
    is_empty-contains (invalid_policies st r)
        (λ b. contains-invalid_policies st r b ∙ c.policies_known b),
    fails_control-control_results st r a,
    contains-security_events st ex a,
  )

-- The release decision is READY exactly when every control is passed.
pub decision-Cleared_iff :
    (st : InvestigationState) (ex : List ToolExecution) (r : Recommendation)
    → ((decision st ex r).status ≡ ready) ↔ Cleared st ex r
unfolding decision
decision-Cleared_iff st ex r =
    let (only, whenever) = evaluate-ready_iff (control_results st r) (security_events st ex) in
    (λ e. passes→Cleared st ex r (only e), λ c. whenever (Cleared→passes st ex r c))

pub ready_decision :
    (st : InvestigationState) (ex : List ToolExecution) (r : Recommendation)
    → (decision st ex r).status ≡ ready
    → (decision st ex r).hard_blocks ≡ []
unfolding decision
ready_decision st ex r e = (ready_iff (control_results st r) (security_events st ex)).0 e

-- The events that the state gets from a validation that passed are not critical either.
pub Cleared-security_events :
    (st : InvestigationState) (ex : List ToolExecution) (r : Recommendation)
    → Cleared st ex r
    → (a : String) → (contains (security_events st ex) a && contains critical_events a) ≡ false
Cleared-security_events st ex r c a =
    ground
      (arith, c.in_scope, c.none_prohibited, c.none_reported a, contains-security_events st ex a)
