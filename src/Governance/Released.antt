-- ===== src/Governance/Released.antt =====
-- When `HardBlockEvaluator.evaluate` of src/amlguard/governance/hard_blocks.py releases, and what it
-- lists.
use amlguard_eu_ai_agent.Prelude.{
  String, true, ◌≡◌, refl, ◌↔◌, ◌⊎◌, inl, inr, List, [], ◌∷◌, ◌&&◌, ◌==◌, eq_iff, arith, Bool-cases,
}
use amlguard_eu_ai_agent.Prelude.Members.{Mem, contains_iff}
use amlguard_eu_ai_agent.Prelude.Sets.{contains}
use amlguard_eu_ai_agent.Domain.{ControlResult, Outcome, pass, warn, fail, not_applicable}
use amlguard_eu_ai_agent.Governance.HardBlocks.{
  critical_events, is_fail, blocking, evaluate, ready, fails_control, contains-hard_blocks,
  evaluate-ready_iff,
}

-- The control of this name failed as a hard block.
abbrev pub Failed : String → ControlResult → Type 0
Failed a r = (r.control_id ≡ a) × (r.hard_block ≡ true) × (r.outcome ≡ fail)

-- The reasons to list a name among the hard blocks.
abbrev pub IsBlock : List ControlResult → List String → String → Type 0
IsBlock controls events a =
    ((r : ControlResult) × Mem controls r × Failed a r) ⊎ (Mem events a × Mem critical_events a)

is_fail_iff : (o : Outcome) → (is_fail o ≡ true) ↔ (o ≡ fail)
is_fail_iff pass = (λ e. absurd (cc e), λ e. absurd (cc e))
is_fail_iff warn = (λ e. absurd (cc e), λ e. absurd (cc e))
is_fail_iff fail = (λ e. refl, λ e. refl)
is_fail_iff not_applicable = (λ e. absurd (cc e), λ e. absurd (cc e))

fails_control→Failed :
    (a : String) (rs : List ControlResult)
    → fails_control a rs ≡ true
    → (r : ControlResult) × Mem rs r × Failed a r
fails_control→Failed a [] h = absurd (cc h)
fails_control→Failed a (r ∷ rs) h = elim (Bool-cases (r.control_id == a && blocking r)) [
  | inl here ↦ (
    r,
    inl refl,
    (
      (eq_iff r.control_id a).0 (ground (arith, here)),
      ground (arith, here),
      (is_fail_iff r.outcome).0 (ground (arith, here)),
    ),
  )
  | inr other ↦
      let (s, m, f) = fails_control→Failed a rs (ground (arith, other, h)) in (s, inr m, f)
]

Failed→fails_control :
    (a : String) (rs : List ControlResult) (r : ControlResult)
    → Mem rs r
    → Failed a r
    → fails_control a rs ≡ true
Failed→fails_control a [] r m f = absurd m
Failed→fails_control a (s ∷ rs) r m f = elim m [
  | inl e ↦ rw e (ground (arith, (eq_iff r.control_id a).1 f.0, f.1, (is_fail_iff r.outcome).1 f.2))
  | inr k ↦ ground (arith, Failed→fails_control a rs r k f)
]

module _ (controls : List ControlResult) (events : List String) where
  hard_blocks-IsBlock :
      (a : String) → Mem (evaluate controls events).hard_blocks a ↔ IsBlock controls events a
  hard_blocks-IsBlock a = (
    λ m. elim (Bool-cases (fails_control a controls)) [
      | inl failed ↦ inl (fails_control→Failed a controls failed)
      | inr none_failed ↦
          let both : (contains events a && contains critical_events a) ≡ true = ground (
            arith,
            none_failed,
            contains-hard_blocks controls events a,
            (contains_iff (evaluate controls events).hard_blocks a).1 m,
          ) in
          inr (
            (contains_iff events a).0 (ground (arith, both)),
            (contains_iff critical_events a).0 (ground (arith, both)),
          )
    ],
    λ b. (contains_iff (evaluate controls events).hard_blocks a).0 (elim b [
      | inl (r, m, f) ↦
          ground
            (arith, contains-hard_blocks controls events a, Failed→fails_control a controls r m f)
      | inr (reported, critical) ↦ ground (
        arith,
        contains-hard_blocks controls events a,
        (contains_iff events a).1 reported,
        (contains_iff critical_events a).1 critical,
      )
    ]),
  )

  -- The hard blocks of a decision are exactly the names of the controls that failed as a hard block
  -- and the critical events that were reported; and the release is READY exactly when there is no
  -- such name.
  pub evaluate-IsBlock :
      ((a : String) → Mem (evaluate controls events).hard_blocks a ↔ IsBlock controls events a)
      × (((evaluate controls events).status ≡ ready) ↔ ((a : String) → ¬ IsBlock controls events a))
  evaluate-IsBlock = (
    hard_blocks-IsBlock,
    (
      λ e a b.
          let clear = (evaluate-ready_iff controls events).0 e a in
          ground (
            arith,
            clear,
            contains-hard_blocks controls events a,
            (contains_iff (evaluate controls events).hard_blocks a).1 ((hard_blocks-IsBlock a).1 b),
          ),
      λ h. (evaluate-ready_iff controls events).1 λ a.
          elim (Bool-cases (contains (evaluate controls events).hard_blocks a)) [
            | inr clear ↦ ground (arith, clear, contains-hard_blocks controls events a)
            | inl listed ↦ absurd (
                h a (
                  (hard_blocks-IsBlock a).0
                    ((contains_iff (evaluate controls events).hard_blocks a).0 listed)))
          ],
    ),
  )
