-- ===== src/Simulation/AlertRules/Booked.antt =====
-- Transactions in the order of their booking, in a period, and those that a test keeps.
use amlguard_eu_ai_agent.Prelude.{Bool, true, ◌≡◌, List, [], ◌∷◌, ◌≤◌, arith, ◌*◌, ◌+◌, ℕ}
use amlguard_eu_ai_agent.Prelude.Lists.{All, All-select, select}
use amlguard_eu_ai_agent.Prelude.Members.{Mem, All-members, All-kept, All-both}
use amlguard_eu_ai_agent.Simulation.Models.{Transaction}
use amlguard_eu_ai_agent.Simulation.AlertRules.{sort_booked, insert_booked, within_days}

module _ (P : Transaction → Type 0) where
  insert_booked-All :
      (t : Transaction) (ts : List Transaction) → P t → All P ts → All P (insert_booked t ts)
  unfolding insert_booked
  insert_booked-All t [] p h = (p, tt)
  insert_booked-All t (x ∷ xs) p h = ground (arith, insert_booked-All t xs p h.1)

  pub sort_booked-All : (ts : List Transaction) → All P ts → All P (sort_booked ts)
  unfolding sort_booked
  sort_booked-All [] h = tt
  sort_booked-All (t ∷ ts) h = insert_booked-All t (sort_booked ts) h.0 (sort_booked-All ts h.1)

-- Booked from the one instant on and at most so many seconds after it.
pub record Soon (from seconds : ℕ) (t : Transaction) : Type 0 where
  pub after : from ≤ t.booked_at
  pub before : t.booked_at ≤ from + seconds

pub within_days→Soon :
    (days : ℕ) (first t : Transaction)
    → within_days days first t ≡ true
    → Soon first.booked_at (days * 86400) t
within_days→Soon days first t h = record { after = ground (arith, h); before = ground (arith, h) }

-- The members that a test keeps.
pub kept-Mem :
    (p : Transaction → Bool) (ts : List Transaction)
    → All (λ t. Mem ts t × (p t ≡ true)) (select p ts)
kept-Mem p ts =
    All-both (Mem ts) (λ t. p t ≡ true) (select p ts) (All-kept (Mem ts) p ts (All-members ts))
      (All-select (λ t. p t ≡ true) p ts (λ t e. e))
