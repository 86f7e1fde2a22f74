-- ===== src/Simulation/AlertRules/Tests.antt =====
-- Five credits in one week, and a credit that leaves on the next day.
use amlguard_eu_ai_agent.Prelude.{ℕ, String, ◌≡◌, refl, List, [], ◌∷◌, none, some, ◌*◌}
use amlguard_eu_ai_agent.Simulation.Models.{Transaction, Alert}
use amlguard_eu_ai_agent.Simulation.AlertRules.{total_amount, structuring_like}

abbrev booked : String → ℕ → ℕ → String → Transaction
booked id day amount direction = record {
  transaction_id = id;
  account_id = "ACC1";
  customer_id = "K1";
  counterparty_id = none;
  booked_at = day * 86400;
  amount = amount;
  currency = "EUR";
  direction = direction;
  description = "transfer";
  injected_scenario_id = none;
}

abbrev credits : List Transaction
credits =
    booked "T5" 5 500000 "credit"
    ∷ booked "T1" 1 500000 "credit"
    ∷ booked "T2" 2 500000 "credit"
    ∷ booked "T3" 3 500000 "credit"
    ∷ booked "T4" 4 500000 "credit"
    ∷ []

repeated : (a : Alert) × (structuring_like "K1" credits ≡ some a)
unfolding structuring_like total_amount
repeated = (_, refl)

abbrev movement : List Transaction
movement = booked "T7" 2 900000 "debit" ∷ booked "T6" 1 1000000 "credit" ∷ []
