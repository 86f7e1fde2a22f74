-- ===== src/Simulation/AlertRules/Patterns.antt =====
-- An alert names transactions that show the pattern of its rule.
use amlguard_eu_ai_agent.Prelude.{String, true, ◌≡◌, List, ◌∷◌, map, ◌≤◌, ◌*◌, ◌<◌}
use amlguard_eu_ai_agent.Prelude.Lists.{All, length}
use amlguard_eu_ai_agent.Prelude.Members.{Mem}
use amlguard_eu_ai_agent.Simulation.Models.{Transaction, Alert}
use amlguard_eu_ai_agent.Simulation.AlertRules.Booked.{Soon}
use amlguard_eu_ai_agent.Simulation.AlertRules.{total_amount, within_days, is_incoming, is_outgoing}

-- One of the transactions, of the customer: a credit from 1,000 up to but less than 10,000.
pub record IsCredit (ts : List Transaction) (customer_id : String) (t : Transaction) : Type 0 where
  pub given : Mem ts t
  pub owned : t.customer_id ≡ customer_id
  pub credit : t.direction ≡ "credit"
  pub least : 100000 ≤ t.amount
  pub most : t.amount < 1000000

-- The window of repeated credits that an alert of structuring names.
pub record Repeated (ts : List Transaction) (customer_id : String) (a : Alert) : Type 0 where
  pub first : Transaction
  pub window : List Transaction
  pub named : a.causal_transaction_ids ≡ map (λ t. t.transaction_id) window
  pub begins : IsCredit ts customer_id first
  pub credits : All (IsCredit ts customer_id) window
  pub near : All (Soon first.booked_at 604800) window
  pub many : 5 ≤ length window
  pub large : 2000000 ≤ total_amount window

abbrev Window : (Transaction → Type 0) → List Transaction → Type 0
Window P w =
    (first : Transaction) × P first
    × All P w
    × All (λ t. within_days 7 first t ≡ true) w
    × (5 ≤ length w)
    × (2000000 ≤ total_amount w)

-- One of the transactions, of the customer and in the direction.
pub record IsOwn (ts : List Transaction) (customer_id direction : String) (t : Transaction)
    : Type 0 where
  pub given : Mem ts t
  pub owned : t.customer_id ≡ customer_id
  pub directed : t.direction ≡ direction

-- The movement that an alert of rapid funds movement names.
pub record Moved (ts : List Transaction) (customer_id : String) (a : Alert) : Type 0 where
  pub incoming : Transaction
  pub outgoing : List Transaction
  pub named :
      a.causal_transaction_ids ≡ incoming.transaction_id ∷ map (λ t. t.transaction_id) outgoing
  pub credit : IsOwn ts customer_id "credit" incoming
  pub large : 500000 ≤ incoming.amount
  pub debits : All (IsOwn ts customer_id "debit") outgoing
  pub soon : All (Soon incoming.booked_at 259200) outgoing
  pub most : 8 * incoming.amount ≤ 10 * total_amount outgoing

abbrev Movement : (Transaction → Type 0) → Transaction × List Transaction → Type 0
Movement P (t, out) =
    P t
    × (is_incoming t ≡ true)
    × All P out
    × All (λ x. is_outgoing t x ≡ true) out
    × (8 * t.amount ≤ 10 * total_amount out)
