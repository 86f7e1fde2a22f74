-- ===== src/Graph/Selection/Selected.antt =====
-- What `select_policies` of src/amlguard/graph/builder.py returns.
use amlguard_eu_ai_agent.Prelude.{ℕ, String, ◌≡◌, refl, some, List, Result, ok, subst, none}
use amlguard_eu_ai_agent.Prelude.Dict.{lookup}
use amlguard_eu_ai_agent.Prelude.Lists.{All}
use amlguard_eu_ai_agent.Domain.{Json, EvidenceItem}
use amlguard_eu_ai_agent.Policy.Retrieval.{PolicyIndex, search_for_alert}
use amlguard_eu_ai_agent.Policy.Retrieval.Mapped.{Retrieved, search_for_alert-Retrieved}
use amlguard_eu_ai_agent.Policy.Applicability.{Texts, next_of}
use amlguard_eu_ai_agent.Policy.Applicability.Derive.{
  text_of, text_field, derive_policy_applicability_facts,
}
use amlguard_eu_ai_agent.Policy.Applicability.Grounded.{Grounded}
use amlguard_eu_ai_agent.Policy.Applicability.Derived.{
  bind_ok, derive_policy_applicability_facts-Grounded,
}
use amlguard_eu_ai_agent.Graph.State.{Selection}
use amlguard_eu_ai_agent.Graph.Selection.{dated, prefix, policy_query, select_policies, Option}

dated_found : (o : Option Json) (v : Json) → dated o ≡ ok v → o ≡ some v
dated_found none v h = absurd (cc h)
dated_found (some w) v h = cc h

module _ (t : Texts) (iso_date : String → Result ℕ) (index : PolicyIndex) (jurisdiction : String)
    (limit : ℕ) (evidence : List EvidenceItem) where
  -- The selection that belongs to the evidence.
  pub record Selected (sel : Selection) : Type 0 where
    pub alert : EvidenceItem
    pub first : next_of "alert" evidence ≡ ok alert
    pub created : Json
    pub at : lookup "created_at" alert.content ≡ some created
    pub date : iso_date (prefix 10 (text_of t created)) ≡ ok sel.as_of_date
    pub grounded : All (Grounded evidence) sel.facts
    pub customer : EvidenceItem
    pub first_customer : next_of "customer_profile" evidence ≡ ok customer
    pub kyc : EvidenceItem
    pub first_kyc : next_of "kyc_profile" evidence ≡ ok kyc
    pub query : String
    pub composed :
        query
        ≡ policy_query t iso_date index jurisdiction limit alert customer kyc sel.facts evidence
    pub retrieved :
        Retrieved index query jurisdiction sel.as_of_date sel.facts limit
          (text_field t "rule_id" alert)
          sel.matches

  -- A selection of policies that returns is dated by the first alert of the evidence; its facts
  -- are declared facts that name only evidence handed in; and its matches are what the retrieval
  -- for the rule of that alert gives for these facts and the query composed of the first alert,
  -- customer and KYC profile, the facts and the evidence: the mapped policies that apply, then
  -- keyword matches of a search, all of them approved, of the jurisdiction, the EU or the
  -- international texts, and in force at that date, within the limit.
  pub select_policies-Selected :
      (sel : Selection)
      → select_policies t iso_date index jurisdiction limit evidence ≡ ok sel
      → Selected sel
  unfolding select_policies
  select_policies-Selected sel h =
      let (alert, a, h1) = bind_ok (next_of "alert" evidence) _ sel h in
      let (customer, c, h2) = bind_ok (next_of "customer_profile" evidence) _ sel h1 in
      let (kyc, k, h3) = bind_ok (next_of "kyc_profile" evidence) _ sel h2 in
      let (facts, f, h4) = bind_ok (derive_policy_applicability_facts t evidence) _ sel h3 in
      let (created, m, h5) = bind_ok (dated (lookup "created_at" alert.content)) _ sel h4 in
      let (as_of, d, h6) = bind_ok (iso_date (prefix 10 (text_of t created))) _ sel h5 in
      let query =
        policy_query t iso_date index jurisdiction limit alert customer kyc facts evidence in
      let (matches, r, h7) =
        bind_ok
          (search_for_alert index query jurisdiction as_of facts limit
            (text_field t "rule_id" alert))
          _ sel h6 in
      let same : record { as_of_date = as_of; facts = facts; matches = matches } ≡ sel = cc h7 in
      subst Selected same (record {
        alert = alert;
        first = a;
        created = created;
        at = dated_found (lookup "created_at" alert.content) created m;
        date = d;
        grounded = derive_policy_applicability_facts-Grounded t evidence facts f;
        customer = customer;
        first_customer = c;
        kyc = kyc;
        first_kyc = k;
        query = query;
        composed = refl;
        retrieved =
            search_for_alert-Retrieved index query jurisdiction as_of facts limit
              (text_field t "rule_id" alert) matches r;
      })
