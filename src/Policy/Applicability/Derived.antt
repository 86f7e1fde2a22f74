-- ===== src/Policy/Applicability/Derived.antt =====
-- The result of `derive_policy_applicability_facts` of src/amlguard/policy/applicability.py.
use amlguard_eu_ai_agent.Prelude.{
  ◌≡◌, refl, Option, none, some, List, map, Result, ok, err, ◌>>=ᵣ◌, subst,
}
use amlguard_eu_ai_agent.Prelude.Lists.{All, first}
use amlguard_eu_ai_agent.Prelude.Dict.{values}
use amlguard_eu_ai_agent.Prelude.Sets.{contains}
use amlguard_eu_ai_agent.Domain.{EvidenceItem, arr, none_left}
use amlguard_eu_ai_agent.Policy.Models.{PolicyApplicabilityFact}
use amlguard_eu_ai_agent.Policy.Applicability.{
  Texts, next_of, required_item, of_type, ids_of, iterated, content_of, sort_facts, String, true,
}
use amlguard_eu_ai_agent.Policy.Applicability.Derive.{
  text_of, collect, causal_of, amount_exceeds, derive_policy_applicability_facts,
}
use amlguard_eu_ai_agent.Policy.Applicability.Grounded.{
  Grounded, collect-Fine, All-sort_facts, first-Within, id_of-Within,
}

pub bind_ok :
    {A B : Type 0} (r : Result A) (f : A → Result B) (b : B)
    → (r >>=ᵣ f) ≡ ok b
    → (a : A) × (r ≡ ok a) × (f a ≡ ok b)
bind_ok (ok a) f b h = (a, refl, h)
bind_ok (err e) f b h = absurd (cc h)

required_found : (o : Option EvidenceItem) (e : EvidenceItem) → required_item o ≡ ok e → o ≡ some e
required_found none e h = absurd (cc h)
required_found (some x) e h = cc h

next_of-Within :
    (kind : String) (evidence : List EvidenceItem) (e : EvidenceItem)
    → next_of kind evidence ≡ ok e
    → contains (ids_of evidence) e.evidence_id ≡ true
unfolding next_of
next_of-Within kind evidence e h =
    first-Within (of_type kind) evidence e (required_found (first (of_type kind) evidence) e h)

-- Every derived fact is one of the declared fact identifiers, and all the evidence identifiers that
-- it names are those of evidence that was handed in.
pub derive_policy_applicability_facts-Grounded :
    (t : Texts) (evidence : List EvidenceItem) (facts : List PolicyApplicabilityFact)
    → derive_policy_applicability_facts t evidence ≡ ok facts
    → All (Grounded evidence) facts
unfolding derive_policy_applicability_facts
derive_policy_applicability_facts-Grounded t evidence facts h =
    let kyc = first (of_type "kyc_profile") evidence in
    let (alert, a, h1) = bind_ok (next_of "alert" evidence) _ facts h in
    let (customer, c, h2) = bind_ok (next_of "customer_profile" evidence) _ facts h1 in
    let (causal, i, h3) =
      bind_ok (iterated (content_of "causal_transaction_ids" (arr none_left) alert)) _ facts h2 in
    let ids = map (text_of t) causal in
    let (exceeding, x, h4) =
      bind_ok (amount_exceeds t customer (causal_of t ids evidence)) _ facts h3 in
    let fine =
      collect-Fine evidence t alert customer kyc ids exceeding
        (next_of-Within "alert" evidence alert a)
        (next_of-Within "customer_profile" evidence customer c)
        (id_of-Within evidence kyc (λ e f. first-Within (of_type "kyc_profile") evidence e f)) in
    let same : sort_facts (values (collect t alert customer kyc ids exceeding evidence)) ≡ facts =
      cc h4 in
    subst (All (Grounded evidence)) same (All-sort_facts (Grounded evidence) _ fine.all)
