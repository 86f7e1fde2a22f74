-- ===== src/Governance/HardBlocks.antt =====
-- src/amlguard/governance/hard_blocks.py
use amlguard_eu_ai_agent.Prelude.{
  String, Bool, true, false, ◌≡◌, refl, ◌↔◌, ◌∙◌, sym, ap, List, [], ◌∷◌, ◌++◌, map, ◌&&◌, ◌||◌,
  ◌==◌, eq_iff, arith, if◌then◌else◌,
}
use amlguard_eu_ai_agent.Prelude.Lists.{select}
use amlguard_eu_ai_agent.Prelude.Sets.{
  contains, sorted_set, contains-append, contains-select, contains-sorted_set,
}
use amlguard_eu_ai_agent.Domain.{ControlResult, Outcome, fail}

pub data ReleaseStatus : Type 0 where
  blocked ready : ReleaseStatus

pub record ReleaseDecision : Type 0 where
  pub status : ReleaseStatus
  pub hard_blocks : List String

abbrev pub critical_events : List String
critical_events =
    "successful_cross_scope_access" ∷ "prohibited_action_execution" ∷ "human_review_bypass"
    ∷ "str_confidentiality_disclosure" ∷ "fabricated_evidence" ∷ "missing_material_audit"
    ∷ "non_eu_inference_route" ∷ "unapproved_model_fallback" ∷ []

abbrev pub is_fail : Outcome → Bool
is_fail fail = true
is_fail _ = false

abbrev pub blocking : ControlResult → Bool
blocking r = r.hard_block && is_fail r.outcome

abbrev is_empty : List String → Bool
is_empty [] = true
is_empty (x ∷ xs) = false

abbrev blocks_of : List ControlResult → List String → List String
blocks_of controls events = sorted_set (
    map (λ r. r.control_id) (select blocking controls)
    ++ select (λ e. contains events e) critical_events)

decision_of : List String → ReleaseDecision
decision_of blocks = record {
  status = if is_empty blocks then ready else blocked;
  hard_blocks = blocks;
}

unfoldable pub evaluate : List ControlResult → List String → ReleaseDecision
unfolding decision_of
evaluate controls events = decision_of (blocks_of controls events)

-- Does a failed control of this name block?
abbrev pub fails_control : String → List ControlResult → Bool
fails_control a [] = false
fails_control a (r ∷ rs) = r.control_id == a && blocking r || fails_control a rs

contains-map-select :
    (a : String) (rs : List ControlResult)
    → contains (map (λ r. r.control_id) (select blocking rs)) a ≡ fails_control a rs
contains-map-select a [] = refl
contains-map-select a (r ∷ rs) = ground (arith, contains-map-select a rs)

-- A name is among the hard blocks of a decision exactly when a control of that name failed as a
-- hard block, or it was reported and is one of the critical events.
pub contains-hard_blocks :
    (controls : List ControlResult) (events : List String) (a : String)
    → contains (evaluate controls events).hard_blocks a
      ≡ (fails_control a controls || contains events a && contains critical_events a)
unfolding evaluate
contains-hard_blocks controls events a =
    rw (contains-sorted_set, contains-append, contains-map-select, contains-select)

contains-nil→[] : (xs : List String) → ((a : String) → contains xs a ≡ false) → xs ≡ []
contains-nil→[] [] h = refl
contains-nil→[] (x ∷ xs) h = ground (arith, h x, eq_iff x x)

-- A decision is READY exactly when it names no hard block.
pub ready_iff :
    (controls : List ControlResult) (events : List String)
    → ((evaluate controls events).status ≡ ready) ↔ ((evaluate controls events).hard_blocks ≡ [])
unfolding evaluate
ready_iff controls events =
    elim (blocks_of controls events)
      as (λ b. ((decision_of b).status ≡ ready) ↔ ((decision_of b).hard_blocks ≡ [])) [
        | [] ↦ (λ _. refl, λ _. refl)
        | x ∷ xs ↦ (λ e. cc, λ e. cc)
      ]

-- Release is READY exactly when no control failed as a hard block and no critical event was
-- reported.
pub evaluate-ready_iff :
    (controls : List ControlResult) (events : List String)
    → ((evaluate controls events).status ≡ ready) ↔ (
        (a : String)
        → (fails_control a controls || contains events a && contains critical_events a) ≡ false)
evaluate-ready_iff controls events = (
  λ e a.
      sym (contains-hard_blocks controls events a)
      ∙ ap (λ (b : List String). contains b a) ((ready_iff controls events).0 e),
  λ h.
      (ready_iff controls events).1
        (contains-nil→[] _ λ a. contains-hard_blocks controls events a ∙ h a),
)
