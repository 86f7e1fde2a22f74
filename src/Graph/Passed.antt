-- ===== src/Graph/Passed.antt =====
-- What the node `validate_controls` of src/amlguard/graph/builder.py lets pass.
use amlguard_eu_ai_agent.Prelude.{
  String, false, ◌≡◌, ◌≢◌, refl, ◌↔◌, ◌⊎◌, inl, inr, List, [], ◌∷◌, not, ◌&&◌, ◌||◌, ◌==◌, eq_iff,
  arith, Bool-cases, subst,
}
use amlguard_eu_ai_agent.Prelude.Lists.{All}
use amlguard_eu_ai_agent.Prelude.Members.{Mem, All-from, All-at, any-All, contains_iff}
use amlguard_eu_ai_agent.Prelude.Sets.{contains}
use amlguard_eu_ai_agent.Domain.{EvidenceItem, Recommendation, ToolExecution}
use amlguard_eu_ai_agent.Policy.Models.{PolicyChunk}
use amlguard_eu_ai_agent.Evidence.{new_ledger, items, cited_evidence}
use amlguard_eu_ai_agent.Evidence.Cited.{cited_evidence_iff}
use amlguard_eu_ai_agent.Governance.HardBlocks.{critical_events, ready}
use amlguard_eu_ai_agent.Tools.Service.{prohibited}
use amlguard_eu_ai_agent.Graph.State.{InvestigationState}
use amlguard_eu_ai_agent.Graph.Controls.{
  cited_policies, is_empty, crosses_scope, executes_prohibited, decision,
}
use amlguard_eu_ai_agent.Graph.Named.{
  Names, CitesPolicy, cited_policies_iff, cited→Names, Names→cited, any-evidence, contains-policies,
}
use amlguard_eu_ai_agent.Graph.Cleared.{Cleared, decision-Cleared_iff}

abbrev pub IsEvidence : InvestigationState → String → Type 0
IsEvidence st a = (e : EvidenceItem) × Mem st.evidence e × (e.evidence_id ≡ a)

abbrev pub IsRetrieved : InvestigationState → String → Type 0
IsRetrieved st a = (c : PolicyChunk) × Mem st.policies c × (c.policy_id ≡ a)

-- The item is about the case and its customer.
abbrev pub InCase : InvestigationState → EvidenceItem → Type 0
InCase st e = (e.case_id ≡ st.case_id) × (e.customer_id ≡ st.customer_id)

-- The execution is of another case, was denied, or is of a tool that is not prohibited.
abbrev pub IsHarmless : InvestigationState → ToolExecution → Type 0
IsHarmless st e = (e.case_id ≢ st.case_id) ⊎ (e.authorized ≡ false) ⊎ (¬ Mem prohibited e.tool_name)

pub record Passed (st : InvestigationState) (executions : List ToolExecution) (r : Recommendation)
    : Type 0 where
  pub evidence_known : Names (λ f. f.evidence_ids) (IsEvidence st) r
  pub policies_known : Names (λ f. f.policy_ids) (IsRetrieved st) r
  pub policy_cited : (st.policies ≡ []) ⊎ ((a : String) × CitesPolicy r a)
  pub in_scope : All (InCase st) (items (new_ledger st.evidence))
  pub none_prohibited : All (IsHarmless st) executions
  pub none_reported : All (λ a. ¬ Mem critical_events a) st.security_events

in_scope_iff :
    (st : InvestigationState)
    → (crosses_scope st ≡ false) ↔ All (InCase st) (items (new_ledger st.evidence))
unfolding crosses_scope
in_scope_iff st =
    any-All (λ e. not (e.case_id == st.case_id) || not (e.customer_id == st.customer_id))
      (InCase st) (items (new_ledger st.evidence))
      λ e. (
        λ h. (
          (eq_iff e.case_id st.case_id).0 (ground (arith, h)),
          (eq_iff e.customer_id st.customer_id).0 (ground (arith, h)),
        ),
        λ h. ground (
          arith,
          (eq_iff e.case_id st.case_id).1 h.0,
          (eq_iff e.customer_id st.customer_id).1 h.1,
        ),
      )

none_prohibited_iff :
    (st : InvestigationState) (ex : List ToolExecution)
    → (executes_prohibited st ex ≡ false) ↔ All (IsHarmless st) ex
unfolding executes_prohibited
none_prohibited_iff st ex =
    any-All (λ e. e.case_id == st.case_id && e.authorized && contains prohibited e.tool_name)
      (IsHarmless st) ex
      λ e. (
        λ h. elim (Bool-cases (e.case_id == st.case_id)) [
          | inr other ↦ inl (λ q. ground (arith, other, (eq_iff e.case_id st.case_id).1 q))
          | inl here ↦ elim (Bool-cases e.authorized) [
            | inr denied ↦ inr (inl denied)
            | inl allowed ↦ inr (
                inr (λ m.
                  ground (arith, h, here, allowed, (contains_iff prohibited e.tool_name).1 m)))
          ]
        ],
        λ q. elim q [
          | inl other ↦ elim (Bool-cases (e.case_id == st.case_id)) [
            | inr apart ↦ ground (arith, apart)
            | inl here ↦ absurd (other ((eq_iff e.case_id st.case_id).0 here))
          ]
          | inr rest ↦ elim rest [
            | inl denied ↦ ground (arith, denied)
            | inr harmless ↦ elim (Bool-cases (contains prohibited e.tool_name)) [
              | inr apart ↦ ground (arith, apart)
              | inl listed ↦ absurd (harmless ((contains_iff prohibited e.tool_name).0 listed))
            ]
          ]
        ],
      )

empty-or-member : {A : Type 0} (xs : List A) → (xs ≡ []) ⊎ ((a : A) × Mem xs a)
empty-or-member [] = inl refl
empty-or-member (x ∷ xs) = inr (x, inl refl)

member-not_empty : {A : Type 0} (xs : List A) (a : A) → Mem xs a → is_empty xs ≡ false
member-not_empty [] a m = absurd m
member-not_empty (x ∷ xs) a m = refl

policy_cited_iff :
    (st : InvestigationState) (r : Recommendation)
    → ((not (is_empty st.policies) && is_empty (cited_policies r)) ≡ false)
      ↔ ((st.policies ≡ []) ⊎ ((a : String) × CitesPolicy r a))
policy_cited_iff st r = (
  λ h. elim (empty-or-member st.policies) [
    | inl none_retrieved ↦ inl none_retrieved
    | inr (c, retrieved) ↦ elim (empty-or-member (cited_policies r)) [
      | inl none_cited ↦ absurd (
          ground (
            arith,
            subst (λ x. (not (is_empty st.policies) && is_empty x) ≡ false) none_cited h,
            member-not_empty st.policies c retrieved,
          ))
      | inr (a, m) ↦ inr (a, (cited_policies_iff r a).0 m)
    ]
  ],
  λ q. elim q [
    | inl none_retrieved ↦ rw none_retrieved refl
    | inr (a, c) ↦
        ground (arith, member-not_empty (cited_policies r) a ((cited_policies_iff r a).1 c))
  ],
)

module _ (st : InvestigationState) (ex : List ToolExecution) (r : Recommendation) where
  Cleared→Passed : Cleared st ex r → Passed st ex r
  Cleared→Passed c = record {
    evidence_known =
        cited→Names (λ f. f.evidence_ids) (IsEvidence st) r
          λ a m. (any-evidence st.evidence a).0 (
            ground (
              arith,
              c.evidence_known a,
              (contains_iff (cited_evidence r) a).1 ((cited_evidence_iff r a).1 m),
            ));
    policies_known =
        cited→Names (λ f. f.policy_ids) (IsRetrieved st) r
          λ a m. (contains-policies st.policies a).0 (
            ground (
              arith,
              c.policies_known a,
              (contains_iff (cited_policies r) a).1 ((cited_policies_iff r a).1 m),
            ));
    policy_cited = (policy_cited_iff st r).0 c.policy_cited;
    in_scope = (in_scope_iff st).0 c.in_scope;
    none_prohibited = (none_prohibited_iff st ex).0 c.none_prohibited;
    none_reported =
        All-from (λ a. ¬ Mem critical_events a) st.security_events
          λ a m k. ground (
            arith,
            c.none_reported a,
            (contains_iff st.security_events a).1 m,
            (contains_iff critical_events a).1 k,
          );
  }

  Passed→Cleared : Passed st ex r → Cleared st ex r
  Passed→Cleared p = record {
    evidence_known = λ a. elim (Bool-cases (contains (cited_evidence r) a)) [
      | inr uncited ↦ ground (arith, uncited)
      | inl cited ↦ ground (
        arith,
        (any-evidence st.evidence a).1 (
            Names→cited (λ f. f.evidence_ids) (IsEvidence st) r p.evidence_known a
              ((cited_evidence_iff r a).0 ((contains_iff (cited_evidence r) a).0 cited))),
      )
    ];
    policies_known = λ a. elim (Bool-cases (contains (cited_policies r) a)) [
      | inr uncited ↦ ground (arith, uncited)
      | inl cited ↦ ground (
        arith,
        (contains-policies st.policies a).1 (
            Names→cited (λ f. f.policy_ids) (IsRetrieved st) r p.policies_known a
              ((cited_policies_iff r a).0 ((contains_iff (cited_policies r) a).0 cited))),
      )
    ];
    policy_cited = (policy_cited_iff st r).1 p.policy_cited;
    in_scope = (in_scope_iff st).1 p.in_scope;
    none_prohibited = (none_prohibited_iff st ex).1 p.none_prohibited;
    none_reported = λ a. elim (Bool-cases (contains st.security_events a)) [
      | inr unreported ↦ ground (arith, unreported)
      | inl reported ↦ elim (Bool-cases (contains critical_events a)) [
        | inr uncritical ↦ ground (arith, uncritical)
        | inl critical ↦ absurd (
            All-at (λ b. ¬ Mem critical_events b) st.security_events a
              ((contains_iff st.security_events a).0 reported) p.none_reported
              ((contains_iff critical_events a).0 critical))
      ]
    ];
  }

-- The control validation decides READY exactly when every evidence identifier that a material
-- finding or a counter-indicator names is one of the state's evidence and every policy that one
-- names is one of the retrieved; some policy is named, or none was retrieved; every item of the
-- ledger is about the case and its customer; no authorized execution of the case is of a
-- prohibited tool; and no security event of the state is critical.
pub decision-Passed_iff :
    (st : InvestigationState) (ex : List ToolExecution) (r : Recommendation)
    → ((decision st ex r).status ≡ ready) ↔ Passed st ex r
decision-Passed_iff st ex r =
    let (only, whenever) = decision-Cleared_iff st ex r in
    (λ e. Cleared→Passed st ex r (only e), λ p. whenever (Passed→Cleared st ex r p))
