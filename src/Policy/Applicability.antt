-- ===== src/Policy/Applicability.antt =====
-- src/amlguard/policy/applicability.py: the facts that select conditional policies, derived from the
-- evidence. `Texts` holds Python's `str` of a JSON value that is no text, and the value of a decimal
-- text, in a unit of which every amount is a multiple, where a negative one counts as 0; none is an
-- InvalidOperation.
pub mod Derive
pub mod Grounded
pub mod Derived
use Prim.Native.String.{String}
use amlguard_eu_ai_agent.Prelude.{
  ℕ, Bool, true, false, Option, none, some, List, [], ◌∷◌, map, not, ◌==◌, ltb, Result, ok, err,
  missing_evidence_type, external_failure, if◌then◌else◌, ◌&&◌, ◌>>=ᵣ◌, ◌++◌,
}
use amlguard_eu_ai_agent.Prelude.Dict.{Dict, lookup, put, keys, is_none, is_some, values}
use amlguard_eu_ai_agent.Prelude.Lists.{any, first, select}
use amlguard_eu_ai_agent.Prelude.Sets.{contains, str_lt}
use amlguard_eu_ai_agent.Domain.{
  Json, str, arr, obj, Items, none_left, item, Fields, of_fields, EvidenceItem,
}
use amlguard_eu_ai_agent.Policy.Models.{PolicyApplicabilityFact}
use amlguard_eu_ai_agent.Policy.Words.{codes, lower, same_word, is_space}

abbrev pub policy_fact_ids : List String
policy_fact_ids =
    "activity_variance_pattern" ∷ "beneficial_owner_data_unavailable" ∷ "business_customer"
    ∷ "causal_amount_exceeds_expected_monthly_turnover" ∷ "counterparty_geography_unavailable"
    ∷ "high_risk_customer" ∷ "kyc_missing" ∷ "kyc_not_current" ∷ "pep_status_unavailable"
    ∷ "potential_enhanced_examination_pattern" ∷ "rapid_funds_movement_pattern"
    ∷ "relationship_purpose_unavailable" ∷ "repeated_credit_pattern"
    ∷ "sanctions_screening_status_unavailable" ∷ []

pub record Texts : Type 0 where
  pub shown : Json → String
  pub decimal : String → Option ℕ

-- `d.get(key, default)`
abbrev pub get_or : Json → Option Json → Json
get_or default none = default
get_or default (some v) = v

abbrev pub content_of : String → Json → EvidenceItem → Json
content_of key default e = get_or default (lookup key e.content)

abbrev pub of_type : String → EvidenceItem → Bool
of_type kind e = e.evidence_type == kind

-- `next(item for item in evidence if item.evidence_type == kind)`
abbrev pub required_item : Option EvidenceItem → Result EvidenceItem
required_item none = err missing_evidence_type
required_item (some e) = ok e

unfoldable pub next_of : String → List EvidenceItem → Result EvidenceItem
next_of kind evidence = required_item (first (of_type kind) evidence)

-- `dict.update`
abbrev pub update : Dict Json → Dict Json → Dict Json
update d [] = d
update d ((k, v) ∷ more) = update (put k v d) more

abbrev pub information_fields : Json → Dict Json
information_fields (obj fs) = of_fields fs
information_fields _ = []

unfoldable pub supplemental_information : Dict Json → List EvidenceItem → Dict Json
supplemental_information d [] = d
supplemental_information d (e ∷ es) =
    supplemental_information
      (update d (information_fields (content_of "information" (obj Fields.no_fields) e))) es

-- `list(dict.fromkeys(ids))`
abbrev pub unique_after : List String → List String → List String
unique_after seen [] = []
unique_after seen (x ∷ xs) =
    let rest = unique_after (x ∷ seen) xs in if contains seen x then rest else x ∷ rest

abbrev pub Facts : Type 0
Facts = Dict PolicyApplicabilityFact

unfoldable pub add : (fact_id explanation : String) → List String → Facts → Facts
add fact_id explanation evidence_ids facts =
    put fact_id
      (record {
        fact_id = fact_id;
        explanation = explanation;
        evidence_ids = unique_after [] evidence_ids;
      })
      facts

unfoldable pub add_if : Bool → (fact_id explanation : String) → List String → Facts → Facts
unfolding add
add_if true id explanation ids facts = add id explanation ids facts
add_if false id explanation ids facts = facts

insert_fact : PolicyApplicabilityFact → List PolicyApplicabilityFact → List PolicyApplicabilityFact
insert_fact f [] = f ∷ []
insert_fact f (g ∷ gs) =
    let rest = insert_fact f gs in if str_lt g.fact_id f.fact_id then g ∷ rest else f ∷ g ∷ gs

-- `sorted(facts, key=lambda item: item.fact_id)`
unfoldable pub sort_facts : List PolicyApplicabilityFact → List PolicyApplicabilityFact
unfolding insert_fact
sort_facts [] = []
sort_facts (f ∷ fs) = insert_fact f (sort_facts fs)

abbrev pub json_items : Items → List Json
json_items none_left = []
json_items (item v xs) = v ∷ json_items xs

abbrev pub characters : String → List Json
characters String.[] = []
characters (String.◌∷◌ c s) = str (String.◌∷◌ c String.[]) ∷ characters s

-- What iterating over a JSON value gives; a number, a Boolean or null raises.
abbrev pub iterated : Json → Result (List Json)
iterated (arr xs) = ok (json_items xs)
iterated (obj fs) = ok (map (λ (k : String). str k) (keys (of_fields fs)))
iterated (str s) = ok (characters s)
iterated _ = err external_failure

-- `s.lower() == word`, for a word of ASCII letters.
abbrev pub is_word : String → String → Bool
is_word word s = same_word (lower (codes s)) (codes word)

-- `not s.strip()`
abbrev pub is_blank : String → Bool
is_blank s = not (any (λ c. not (is_space c)) (codes s))

abbrev pub exceeds : Option ℕ → ℕ → Result Bool → Result Bool
exceeds none turnover rest = err external_failure
exceeds (some n) turnover rest = if ltb turnover n then ok true else rest

abbrev pub amount_or_zero : Option ℕ → ℕ
amount_or_zero none = 0
amount_or_zero (some n) = n

abbrev pub ids_of : List EvidenceItem → List String
ids_of es = map (λ e. e.evidence_id) es

-- `[kyc.evidence_id] if kyc else []`
abbrev pub id_of : Option EvidenceItem → List String
id_of none = []
id_of (some e) = e.evidence_id ∷ []

-- `{key for item in items for key in item.content}`
abbrev pub has_key : String → List EvidenceItem → Bool
has_key key es = any (λ e. is_some (lookup key e.content)) es
