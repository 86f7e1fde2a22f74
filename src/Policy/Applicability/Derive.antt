-- ===== src/Policy/Applicability/Derive.antt =====
-- `derive_policy_applicability_facts` of src/amlguard/policy/applicability.py, in the order of its tests.
use Prim.Native.String.{String}
use amlguard_eu_ai_agent.Prelude.{
  ℕ, Bool, true, false, Option, none, some, List, [], ◌∷◌, map, not, ◌==◌, ltb, Result, ok,
  if◌then◌else◌, ◌&&◌, ◌>>=ᵣ◌, ◌++◌,
}
use amlguard_eu_ai_agent.Prelude.Dict.{Dict, lookup, is_none, values}
use amlguard_eu_ai_agent.Prelude.Lists.{first, select}
use amlguard_eu_ai_agent.Prelude.Sets.{contains}
use amlguard_eu_ai_agent.Domain.{Json, str, arr, none_left, EvidenceItem}
use amlguard_eu_ai_agent.Policy.Models.{PolicyApplicabilityFact}
use amlguard_eu_ai_agent.Policy.Applicability.{
  Texts, get_or, content_of, of_type, next_of, supplemental_information, Facts, add, add_if,
  sort_facts, iterated, is_word, is_blank, exceeds, amount_or_zero, ids_of, id_of, has_key,
}

module _ (t : Texts) where
  -- `str(value)`
  abbrev pub text_of : Json → String
  text_of (str s) = s
  text_of v = t.shown v

  abbrev pub text_field : String → EvidenceItem → String
  text_field key e = text_of (content_of key (str "") e)

  -- The loop of `any` over the causal transactions: it raises at an amount that is no decimal, unless
  -- an earlier one exceeds the turnover.
  unfoldable pub any_exceeds : ℕ → List EvidenceItem → Result Bool
  any_exceeds turnover [] = ok false
  any_exceeds turnover (e ∷ es) =
      let rest = any_exceeds turnover es in
      exceeds (t.decimal (text_of (content_of "amount" (str "0") e))) turnover rest

  -- The facts of the rule that raised the alert.
  unfoldable pub add_pattern : String → List String → Facts → Facts
  add_pattern rule_id causal facts =
      if rule_id == "EXPECTED_ACTIVITY_VARIANCE"
      then add "activity_variance_pattern"
          "The monitoring engine recorded an expected-activity variance." causal facts
      else if rule_id == "RAPID_FUNDS_MOVEMENT"
      then add "potential_enhanced_examination_pattern"
          "The rapid movement is an atypical pattern requiring assessment against the legal enhanced-examination criteria."
          causal
          (add "rapid_funds_movement_pattern"
            "The monitoring engine recorded incoming funds followed by rapid outgoing movement."
            causal facts)
      else if rule_id == "STRUCTURING_LIKE_REPEATED_CREDITS"
      then add "potential_enhanced_examination_pattern"
          "The repeated-credit pattern requires assessment against the legal enhanced-examination criteria."
          causal
          (add "repeated_credit_pattern"
            "The monitoring engine recorded repeated credits within a short window." causal facts)
      else facts

  abbrev pub lacks : String → Option EvidenceItem → Bool
  lacks key none = true
  lacks key (some e) = is_none (lookup key e.content)

  unfoldable pub add_customer :
      EvidenceItem → Option EvidenceItem → Dict Json → List String → Facts → Facts
  add_customer customer kyc information supplemental_ids facts =
      let business = is_word "business" (text_field "customer_type" customer) in
      add_if
        (business
          && (lacks "beneficial_owner" kyc && is_none (lookup "beneficial_owner" information)))
        "beneficial_owner_data_unavailable"
        "The retrieved KYC evidence does not contain beneficial-owner information."
        (customer.evidence_id ∷ id_of kyc ++ supplemental_ids)
        (add_if business "business_customer" "The customer profile identifies a business customer."
          (customer.evidence_id ∷ [])
          (add_if (is_word "high" (text_field "risk_level" customer)) "high_risk_customer"
            "The customer profile is classified as high risk." (customer.evidence_id ∷ []) facts))

  abbrev pub kyc_is_missing : Option EvidenceItem → Bool
  kyc_is_missing none = true
  kyc_is_missing (some k) = is_word "missing" (text_field "status" k)

  abbrev pub kyc_is_outdated : Option EvidenceItem → Bool
  kyc_is_outdated none = false
  kyc_is_outdated (some k) =
      not (is_word "missing" (text_field "status" k))
      && not (is_word "current" (text_field "status" k))

  abbrev pub purpose_is_blank : Option EvidenceItem → Bool
  purpose_is_blank none = true
  purpose_is_blank (some k) = is_blank (text_field "purpose" k)

  unfoldable pub add_kyc :
      EvidenceItem → Option EvidenceItem → Dict Json → List String → Facts → Facts
  add_kyc customer kyc information supplemental_ids facts =
      add_if
        (purpose_is_blank kyc
          && is_blank (text_of (get_or (str "") (lookup "purpose" information))))
        "relationship_purpose_unavailable"
        "The purpose of the business relationship is absent from retrieved KYC evidence."
        (customer.evidence_id ∷ id_of kyc ++ supplemental_ids)
        (add_if (kyc_is_outdated kyc) "kyc_not_current"
          "The retrieved KYC profile is not marked current." (id_of kyc)
          (add_if (kyc_is_missing kyc) "kyc_missing"
            "No usable KYC profile is available in the retrieved evidence."
            (customer.evidence_id ∷ id_of kyc) facts))

  unfoldable pub add_screening : EvidenceItem → Dict Json → Facts → Facts
  add_screening customer information facts =
      add_if
        (is_none (lookup "sanctions_screening_status" customer.content)
          && is_none (lookup "sanctions_screening_status" information))
        "sanctions_screening_status_unavailable"
        "The retrieved customer profile does not contain a sanctions-screening result."
        (customer.evidence_id ∷ [])
        (add_if
          (is_none (lookup "pep_status" customer.content)
            && is_none (lookup "pep_status" information))
          "pep_status_unavailable"
          "The retrieved customer profile does not contain a PEP assessment."
          (customer.evidence_id ∷ []) facts)

  unfoldable pub turnover_of : EvidenceItem → ℕ
  turnover_of customer =
      amount_or_zero
        (t.decimal (text_of (content_of "expected_monthly_turnover" (str "0") customer)))

  -- `expected_turnover > 0 and any(…)`
  unfoldable pub amount_exceeds : EvidenceItem → List EvidenceItem → Result Bool
  unfolding turnover_of any_exceeds
  amount_exceeds customer transactions =
      if ltb 0 (turnover_of customer)
      then any_exceeds (turnover_of customer) transactions
      else ok false

  abbrev pub causal_of : List String → List EvidenceItem → List EvidenceItem
  causal_of causal_ids evidence =
      select (λ e. contains causal_ids e.evidence_id) (select (of_type "transaction") evidence)

  -- `facts` before the sort.
  unfoldable pub collect :
      (alert customer : EvidenceItem)
      → Option EvidenceItem
      → (causal_ids : List String) → (exceeding : Bool) → List EvidenceItem
      → Facts
  unfolding add_pattern add_customer add_kyc add_screening supplemental_information
  collect alert customer kyc causal_ids exceeding evidence =
      let supplemental = select (of_type "supplemental_information") evidence in
      let information = supplemental_information [] supplemental in
      let transactions = causal_of causal_ids evidence in
      let causal = alert.evidence_id ∷ ids_of transactions in
      add_if
        (not (has_key "counterparty_country_code" transactions)
          && is_none (lookup "counterparty_country_code" information))
        "counterparty_geography_unavailable"
        "The causal transaction evidence does not include counterparty geography." causal
        (add_if exceeding "causal_amount_exceeds_expected_monthly_turnover"
          "At least one causal transaction exceeds the recorded expected monthly turnover."
          (customer.evidence_id ∷ causal)
          (add_screening customer information (
            add_kyc customer kyc information (ids_of supplemental) (
              add_customer customer kyc information (ids_of supplemental)
                (add_pattern (text_field "rule_id" alert) causal [])))))

  unfoldable pub derive_policy_applicability_facts :
      List EvidenceItem → Result (List PolicyApplicabilityFact)
  unfolding next_of collect amount_exceeds sort_facts
  derive_policy_applicability_facts evidence = next_of "alert" evidence >>=ᵣ λ alert.
      next_of "customer_profile" evidence >>=ᵣ λ customer.
      iterated (content_of "causal_transaction_ids" (arr none_left) alert) >>=ᵣ λ causal.
      amount_exceeds customer (causal_of (map text_of causal) evidence) >>=ᵣ λ exceeding. ok (
        sort_facts (
          values (
            collect alert customer (first (of_type "kyc_profile") evidence) (map text_of causal)
              exceeding evidence)))
