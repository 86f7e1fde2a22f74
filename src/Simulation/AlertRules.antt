-- ===== src/Simulation/AlertRules.antt =====
-- src/amlguard/simulation/alert_rules.py. An amount is in cents and an instant in seconds, so that a
-- day is 86400; the texts of the calculation trace, of a decimal and of a quotient, are parameters.
pub mod Booked
pub mod Patterns
mod Tests
use Prim.Native.Nat.{max}
use Prim.Native.String.{◌++◌ as str_append}
use amlguard_eu_ai_agent.Prelude.{
  ℕ, String, Bool, true, false, Option, none, some, List, [], ◌∷◌, map, ◌+◌, ◌*◌, ◌&&◌, ◌||◌, not,
  ◌==◌, leb, ltb, if◌then◌else◌,
}
use amlguard_eu_ai_agent.Prelude.Lists.{select, last?, length}
use amlguard_eu_ai_agent.Domain.{num, str}
use amlguard_eu_ai_agent.Simulation.Models.{Transaction, Alert}

-- `sorted(transactions, key=lambda item: item.booked_at)`, which is stable.
insert_booked : Transaction → List Transaction → List Transaction
insert_booked t [] = t ∷ []
insert_booked t (x ∷ xs) =
    let rest = insert_booked t xs in if leb t.booked_at x.booked_at then t ∷ x ∷ xs else x ∷ rest

unfoldable pub sort_booked : List Transaction → List Transaction
unfolding insert_booked
sort_booked [] = []
sort_booked (t ∷ ts) = insert_booked t (sort_booked ts)

abbrev pub of_customer : String → Transaction → Bool
of_customer customer_id t = t.customer_id == customer_id

-- `booked_at` of the latest of several transactions.
abbrev pub latest_booked : List Transaction → ℕ
latest_booked [] = 0
latest_booked (t ∷ ts) = max t.booked_at (latest_booked ts)

unfoldable pub total_amount : List Transaction → ℕ
total_amount [] = 0
total_amount (t ∷ ts) = t.amount + total_amount ts

-- Is `t` booked in the period of this many days that begins with `first`?
abbrev pub within_days : ℕ → Transaction → Transaction → Bool
within_days days first t =
    leb first.booked_at t.booked_at && leb t.booked_at (first.booked_at + days * 86400)

variance_alert : String → Option Transaction → Option Alert
variance_alert customer_id none = none
variance_alert customer_id (some latest) = some (record {
  alert_id = str_append "ALT-EAV-" customer_id;
  customer_id = customer_id;
  rule_id = "EXPECTED_ACTIVITY_VARIANCE";
  rule_version = "1.0";
  causal_transaction_ids = latest.transaction_id ∷ [];
  calculation_trace =
      ("review_reason", str "sampled benign variance") ∷ ("severity", str "low") ∷ [];
  created_at = latest.booked_at + 1;
})

unfoldable pub expected_activity_variance : String → List Transaction → Option Alert
unfolding variance_alert sort_booked
expected_activity_variance customer_id transactions =
    variance_alert customer_id (last? (sort_booked (select (of_customer customer_id) transactions)))

abbrev pub is_incoming : Transaction → Bool
is_incoming t = not (not (t.direction == "credit") || ltb t.amount 500000)

abbrev pub is_outgoing : Transaction → Transaction → Bool
is_outgoing incoming t = t.direction == "debit" && within_days 3 incoming t

-- `total_out >= incoming.amount * Decimal("0.80")`
abbrev pub is_rapid : Transaction → List Transaction → Bool
is_rapid incoming outgoing = leb (8 * incoming.amount) (10 * total_amount outgoing)

-- The loop of `rapid_funds_movement`: the first incoming transaction with its outgoing ones.
unfoldable pub find_rapid :
    List Transaction → List Transaction → Option (Transaction × List Transaction)
find_rapid ordered [] = none
find_rapid ordered (t ∷ ts) =
    let rest = find_rapid ordered ts in
    let outgoing = select (is_outgoing t) ordered in
    if is_incoming t && is_rapid t outgoing then some (t, outgoing) else rest

module _ (amount_text : ℕ → String) (ratio_text : ℕ → ℕ → String) where
  rapid_alert : String → Option (Transaction × List Transaction) → Option Alert
  rapid_alert customer_id none = none
  rapid_alert customer_id (some (incoming, outgoing)) = some (record {
    alert_id = str_append "ALT-RFM-" customer_id;
    customer_id = customer_id;
    rule_id = "RAPID_FUNDS_MOVEMENT";
    rule_version = "1.0";
    causal_transaction_ids = incoming.transaction_id ∷ map (λ t. t.transaction_id) outgoing;
    calculation_trace =
        ("incoming", str (amount_text incoming.amount))
        ∷ ("outgoing_within_3d", str (amount_text (total_amount outgoing)))
        ∷ ("ratio", str (ratio_text (total_amount outgoing) incoming.amount))
        ∷ [];
    created_at = latest_booked (incoming ∷ outgoing) + 1;
  })

  unfoldable pub rapid_funds_movement : String → List Transaction → Option Alert
  unfolding rapid_alert find_rapid sort_booked
  rapid_funds_movement customer_id transactions =
      let ordered = sort_booked (select (of_customer customer_id) transactions) in
      rapid_alert customer_id (find_rapid ordered ordered)

abbrev pub is_structuring : String → Transaction → Bool
is_structuring customer_id t =
    t.customer_id == customer_id
    && t.direction == "credit"
    && leb 100000 t.amount
    && ltb t.amount 1000000

abbrev pub is_suspicious : List Transaction → Bool
is_suspicious window = leb 5 (length window) && leb 2000000 (total_amount window)

-- The loop of `structuring_like`: the first suspicious window.
unfoldable pub find_window : List Transaction → Option (List Transaction)
find_window [] = none
find_window (t ∷ ts) =
    let rest = find_window ts in
    let window = select (within_days 7 t) (t ∷ ts) in
    if is_suspicious window then some window else rest

structuring_alert : String → Option (List Transaction) → Option Alert
structuring_alert customer_id none = none
structuring_alert customer_id (some window) = some (record {
  alert_id = str_append "ALT-STR-" customer_id;
  customer_id = customer_id;
  rule_id = "STRUCTURING_LIKE_REPEATED_CREDITS";
  rule_version = "1.0";
  causal_transaction_ids = map (λ t. t.transaction_id) window;
  calculation_trace = ("count", num (length window)) ∷ ("window_days", num 7) ∷ [];
  created_at = latest_booked window + 1;
})

unfoldable pub structuring_like : String → List Transaction → Option Alert
unfolding structuring_alert find_window sort_booked
structuring_like customer_id transactions =
    structuring_alert customer_id
      (find_window (sort_booked (select (is_structuring customer_id) transactions)))
