-- ===== src/Policy/Applicability/Grounded.antt =====
-- Every fact of src/amlguard/policy/applicability.py is one of the declared facts, and names only
-- evidence of the case.
use Prim.Native.String.{String}
use amlguard_eu_ai_agent.Prelude.{
  ap, subst, Bool, true, false, ◌≡◌, refl, Option, none, some, List, [], ◌∷◌, ◌++◌, ◌==◌, arith,
  eq_refl, eq_iff, Bool-cases, inl, inr, if◌then◌else◌, subst,
}
use amlguard_eu_ai_agent.Prelude.Dict.{Dict, put, values}
use amlguard_eu_ai_agent.Prelude.Lists.{All, select, first}
use amlguard_eu_ai_agent.Prelude.Sets.{contains, str_lt, contains-append}
use amlguard_eu_ai_agent.Domain.{EvidenceItem}
use amlguard_eu_ai_agent.Policy.Models.{PolicyApplicabilityFact}
use amlguard_eu_ai_agent.Policy.Applicability.{
  Texts, Facts, policy_fact_ids, unique_after, add, add_if, insert_fact, sort_facts, ids_of, id_of,
  of_type,
}
use amlguard_eu_ai_agent.Policy.Applicability.Derive.{
  add_pattern, add_customer, add_kyc, add_screening, collect, text_field,
}

-- Every element of the first list is one of the second.
pub record Within (xs ys : List String) : Type 0 where
  pub at : (a : String) → contains xs a ≡ true → contains ys a ≡ true

pub record Grounded (evidence : List EvidenceItem) (f : PolicyApplicabilityFact) : Type 0 where
  pub declared : contains policy_fact_ids f.fact_id ≡ true
  pub cited : Within f.evidence_ids (ids_of evidence)

contains-unique_after :
    (seen xs : List String) (a : String)
    → contains (unique_after seen xs) a ≡ true
    → contains xs a ≡ true
contains-unique_after seen [] a h = h
contains-unique_after seen (x ∷ xs) a h = ground (arith, contains-unique_after (x ∷ seen) xs a)

Within-cons :
    (x : String) (xs ys : List String) → contains ys x ≡ true → Within xs ys → Within (x ∷ xs) ys
Within-cons x xs ys h w = record { at = λ a e. ground (arith, w.at a, eq_iff x a) }

Within-append : (xs zs ys : List String) → Within xs ys → Within zs ys → Within (xs ++ zs) ys
Within-append xs zs ys w v = record {
  at = λ a e. ground (arith, w.at a, v.at a, contains-append xs zs a);
}

Within-trans : {xs ys zs : List String} → Within xs ys → Within ys zs → Within xs zs
Within-trans w v = record { at = λ a e. v.at a (w.at a e) }

Within-nil : (ys : List String) → Within [] ys
Within-nil ys = record { at = λ a e. ground arith }

module _ {V : Type 0} (P : V → Type 0) where
  All-values-put :
      (k : String) (v : V) (d : Dict V) → P v → All P (values d) → All P (values (put k v d))
  unfolding values put
  All-values-put k v [] p h = (p, tt)
  All-values-put k v ((j, w) ∷ d) p (q, h) = elim (Bool-cases (j == k)) [
    | inl here ↦ rw here (p, h)
    | inr other ↦ rw other (q, All-values-put k v d p h)
  ]

module _ (P : PolicyApplicabilityFact → Type 0) where
  All-insert_fact :
      (f : PolicyApplicabilityFact) (fs : List PolicyApplicabilityFact)
      → P f
      → All P fs
      → All P (insert_fact f fs)
  unfolding insert_fact
  All-insert_fact f [] p h = (p, tt)
  All-insert_fact f (g ∷ gs) p (q, h) = elim (Bool-cases (str_lt g.fact_id f.fact_id)) [
    | inl less ↦ rw less (q, All-insert_fact f gs p h)
    | inr more ↦ rw more (p, (q, h))
  ]

  pub All-sort_facts : (fs : List PolicyApplicabilityFact) → All P fs → All P (sort_facts fs)
  unfolding sort_facts
  All-sort_facts [] h = tt
  All-sort_facts (f ∷ fs) (p, h) = All-insert_fact f (sort_facts fs) p (All-sort_facts fs h)

pub first-Within :
    (p : EvidenceItem → Bool) (es : List EvidenceItem) (e : EvidenceItem)
    → first p es ≡ some e
    → contains (ids_of es) e.evidence_id ≡ true
first-Within p [] e h = absurd (cc h)
first-Within p (x ∷ xs) e h = elim (Bool-cases (p x)) [
  | inl here ↦
      let same : x ≡ e = cc (h, subst (λ b. (if b then some x else first p xs) ≡ some e) here h) in
      ground (arith, eq_refl e.evidence_id, ap (λ (y : EvidenceItem). y.evidence_id) same)
  | inr other ↦ ground (arith, first-Within p xs e, other, h)
]

select-Within :
    (p : EvidenceItem → Bool) (es : List EvidenceItem) → Within (ids_of (select p es)) (ids_of es)
select-Within p [] = Within-nil []
select-Within p (x ∷ xs) =
    let w = select-Within p xs in
    elim (Bool-cases (p x)) [
      | inl here ↦ rw here (record { at = λ a e. ground (arith, w.at a) })
      | inr other ↦ rw other (record { at = λ a e. ground (arith, w.at a) })
    ]

pub record Fine (evidence : List EvidenceItem) (facts : Facts) : Type 0 where
  pub all : All (Grounded evidence) (values facts)

module _ (evidence : List EvidenceItem) where
  add-Fine :
      (id explanation : String) (ids : List String) (facts : Facts)
      → contains policy_fact_ids id ≡ true
      → Within ids (ids_of evidence)
      → Fine evidence facts
      → Fine evidence (add id explanation ids facts)
  unfolding add
  add-Fine id explanation ids facts d w h = record {
    all =
        All-values-put (Grounded evidence) id _ facts
          (record {
            declared = d;
            cited = record { at = λ a e. w.at a (contains-unique_after [] ids a e) };
          })
          h.all;
  }

  add_if-Fine :
      (b : Bool) (id explanation : String) (ids : List String) (facts : Facts)
      → contains policy_fact_ids id ≡ true
      → Within ids (ids_of evidence)
      → Fine evidence facts
      → Fine evidence (add_if b id explanation ids facts)
  unfolding add_if
  add_if-Fine true id explanation ids facts d w h = add-Fine id explanation ids facts d w h
  add_if-Fine false id explanation ids facts d w h = h

  Fine-if :
      (b : Bool) (d e : Facts)
      → Fine evidence d
      → Fine evidence e
      → Fine evidence (if b then d else e)
  Fine-if true d e h k = h
  Fine-if false d e h k = k

  pub id_of-Within :
      (o : Option EvidenceItem)
      → ((e : EvidenceItem) → o ≡ some e → contains (ids_of evidence) e.evidence_id ≡ true)
      → Within (id_of o) (ids_of evidence)
  id_of-Within none h = Within-nil _
  id_of-Within (some e) h = Within-cons e.evidence_id [] _ (h e refl) (Within-nil _)

  module _ (t : Texts) where
    add_pattern-Fine :
        (rule : String) (causal : List String)
        → Within causal (ids_of evidence)
        → Fine evidence (add_pattern t rule causal [])
    unfolding add_pattern values
    add_pattern-Fine rule causal w =
        let nothing : Fine evidence [] = record { all = tt } in
        Fine-if (rule == "EXPECTED_ACTIVITY_VARIANCE") _ _ (add-Fine _ _ causal [] refl w nothing) (
          Fine-if (rule == "RAPID_FUNDS_MOVEMENT") _ _
            (add-Fine _ _ causal _ refl w (add-Fine _ _ causal [] refl w nothing))
            (Fine-if (rule == "STRUCTURING_LIKE_REPEATED_CREDITS") _ _
              (add-Fine _ _ causal _ refl w (add-Fine _ _ causal [] refl w nothing)) nothing))

    pub collect-Fine :
        (alert customer : EvidenceItem) (kyc : Option EvidenceItem) (causal : List String)
        (exceeding : Bool)
        → contains (ids_of evidence) alert.evidence_id ≡ true
        → contains (ids_of evidence) customer.evidence_id ≡ true
        → Within (id_of kyc) (ids_of evidence)
        → Fine evidence (collect t alert customer kyc causal exceeding evidence)
    unfolding collect add_customer add_kyc add_screening
    collect-Fine alert customer kyc causal exceeding a c k =
        let ids = ids_of evidence in
        let own = Within-cons customer.evidence_id [] ids c (Within-nil ids) in
        let extra = select-Within (of_type "supplemental_information") evidence in
        let all_extra =
          Within-cons customer.evidence_id _ ids c (Within-append (id_of kyc) _ ids k extra) in
        let trans =
          Within-trans
            (select-Within (λ e. contains causal e.evidence_id)
              (select (of_type "transaction") evidence))
            (select-Within (of_type "transaction") evidence) in
        let cause = Within-cons alert.evidence_id _ ids a trans in
        add_if-Fine _ _ _ _ _ refl cause (
          add_if-Fine _ _ _ _ _ refl (Within-cons customer.evidence_id _ ids c cause) (
            add_if-Fine _ _ _ _ _ refl own (
              add_if-Fine _ _ _ _ _ refl own (
                add_if-Fine _ _ _ _ _ refl all_extra (
                  add_if-Fine _ _ _ _ _ refl k (
                    add_if-Fine _ _ _ _ _ refl (Within-cons customer.evidence_id _ ids c k) (
                      add_if-Fine _ _ _ _ _ refl all_extra (
                        add_if-Fine _ _ _ _ _ refl own (
                          add_if-Fine _ _ _ _ _ refl own
                            (add_pattern-Fine (text_field t "rule_id" alert) _ cause))))))))))
