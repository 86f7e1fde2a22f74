-- ===== src/Policy/Retrieval.antt =====
-- src/amlguard/policy/retrieval.py. A keyword score, a quotient of two counts, is kept as the pair of both.
pub mod Conditions
pub mod Eligible
pub mod Mapped
pub mod Index
mod Tests
use Prim.Native.Nat.{max}
use amlguard_eu_ai_agent.Prelude.{
  ℕ, String, Bool, true, false, Option, none, some, List, [], ◌∷◌, ◌++◌, map, ◌&&◌, ◌||◌, not, ◌==◌,
  Result, ok, err, leb, ltb, ◌=ℕ◌, limit_out_of_range, duplicate_mapping, unknown_policy_ids,
  if◌then◌else◌, no_policy_mapping, limit_too_small, ◌>>=ᵣ◌, ◌-◌,
}
use amlguard_eu_ai_agent.Prelude.Dict.{Dict, lookup, put, is_some}
use amlguard_eu_ai_agent.Prelude.Lists.{select, take, length}
use amlguard_eu_ai_agent.Prelude.Sets.{contains, subset, meets, difference, str_lt}
use amlguard_eu_ai_agent.Policy.Models.{
  PolicyChunk, PolicyStage, RetrievalReason, alert_mapping, conditional_mapping, MappedPolicyRule,
  AlertPolicyMapping, all_rules, PolicyApplicabilityFact, contextual_keyword,
}
use amlguard_eu_ai_agent.Policy.Words.{count_common, words, codes, join}

pub record Score : Type 0 where
  pub hits : ℕ
  pub of_tokens : ℕ

pub record PolicyMatch : Type 0 where
  pub chunk : PolicyChunk
  pub score : Score
  pub reason : RetrievalReason
  pub stage : Option PolicyStage
  pub matched_fact_ids : List String
  pub explanation : String

pub record PolicyIndex : Type 0 where
  pub chunks : List PolicyChunk
  pub alert_mappings : Dict AlertPolicyMapping

index_mappings : List AlertPolicyMapping → Dict AlertPolicyMapping → Dict AlertPolicyMapping
index_mappings [] d = d
index_mappings (m ∷ ms) d = index_mappings ms (put m.alert_rule_id m d)

abbrev pub rule_policy_ids : List AlertPolicyMapping → List String
rule_policy_ids [] = []
rule_policy_ids (m ∷ ms) = map (λ r. r.policy_id) (all_rules m) ++ rule_policy_ids ms

abbrev pub none_of : List String → Bool
none_of [] = true
none_of (x ∷ xs) = false

-- `PolicyIndex(chunks, alert_mappings)`
unfoldable pub new_index : List PolicyChunk → List AlertPolicyMapping → Result PolicyIndex
unfolding index_mappings
new_index chunks mappings =
    let d = index_mappings mappings [] in
    if not (length d =ℕ length mappings)
    then err duplicate_mapping
    else if none_of (difference (rule_policy_ids mappings) (map (λ c. c.policy_id) chunks))
    then ok (record { chunks = chunks; alert_mappings = d })
    else err unknown_policy_ids

abbrev not_before : Option ℕ → ℕ → Bool
not_before none d = true
not_before (some from) d = leb from d

abbrev not_after : Option ℕ → ℕ → Bool
not_after none d = true
not_after (some to) d = leb d to

-- The filter of both searches.
unfoldable pub is_eligible : String → ℕ → PolicyChunk → Bool
is_eligible jurisdiction as_of_date c =
    c.approved
    && contains (jurisdiction ∷ "EU" ∷ "INTL" ∷ []) c.jurisdiction
    && not_before c.effective_from as_of_date
    && not_after c.effective_to as_of_date

-- `1 <= limit <= 20`
abbrev pub limit_is_valid : ℕ → Bool
limit_is_valid limit = leb 1 limit && leb limit 20

-- The key `(-score, policy_id)`: all scores of one search have one denominator.
abbrev before : (PolicyChunk × Score) → (PolicyChunk × Score) → Bool
before (c, s) (d, t) =
    ltb t.hits s.hits
    || t.hits =ℕ s.hits && (str_lt c.policy_id d.policy_id || c.policy_id == d.policy_id)

insert_scored : (PolicyChunk × Score) → List (PolicyChunk × Score) → List (PolicyChunk × Score)
insert_scored p [] = p ∷ []
insert_scored p (q ∷ qs) =
    let rest = insert_scored p qs in if before p q then p ∷ q ∷ qs else q ∷ rest

sort_scored : List (PolicyChunk × Score) → List (PolicyChunk × Score)
unfolding insert_scored
sort_scored [] = []
sort_scored (p ∷ ps) = insert_scored p (sort_scored ps)

-- `self._rule_applies(rule, fact_ids)`
unfoldable pub rule_applies : List String → MappedPolicyRule → Bool
rule_applies fact_ids r =
    subset r.when_all fact_ids && (none_of r.when_any || meets r.when_any fact_ids)

score_of : List (List ℕ) → PolicyChunk → Score
score_of tokens c = record {
  hits = count_common tokens (words (join (c.policy_id ∷ c.provision ∷ c.text ∷ c.topics)));
  of_tokens = max 1 (length tokens);
}

scored : List (List ℕ) → List PolicyChunk → List (PolicyChunk × Score)
unfolding score_of
scored tokens [] = []
scored tokens (c ∷ cs) =
    let rest = scored tokens cs in
    if leb 1 (score_of tokens c).hits then (c, score_of tokens c) ∷ rest else rest

unfoldable pub search : PolicyIndex → String → String → ℕ → ℕ → Result (List (PolicyChunk × Score))
unfolding scored sort_scored is_eligible
search index query jurisdiction as_of_date limit =
    if not (limit_is_valid limit)
    then err limit_out_of_range
    else ok (
        take limit (
          sort_scored (
            scored (words (codes query))
              (select (is_eligible jurisdiction as_of_date) index.chunks))))

-- `{chunk.policy_id: chunk for chunk in chunks}`
unfoldable pub chunks_by_id : List PolicyChunk → Dict PolicyChunk → Dict PolicyChunk
chunks_by_id [] d = d
chunks_by_id (c ∷ cs) d = chunks_by_id cs (put c.policy_id c d)

abbrev full_score : Score
full_score = record { hits = 1; of_tokens = 1 }

abbrev pub match_of :
    List String → List String → MappedPolicyRule → Option PolicyChunk → List PolicyMatch
match_of always_ids fact_ids r none = []
match_of always_ids fact_ids r (some c) =
    record {
      chunk = c;
      score = full_score;
      reason = if contains always_ids r.policy_id then alert_mapping else conditional_mapping;
      stage = some r.stage;
      matched_fact_ids = r.when_all ++ select (contains fact_ids) r.when_any;
      explanation = r.rationale;
    }
    ∷ []

-- The loop over the eligible rules, each of which finds its chunk.
unfoldable pub mapped_matches :
    Dict PolicyChunk → List String → List String → List MappedPolicyRule → List PolicyMatch
mapped_matches eligible always_ids fact_ids [] = []
mapped_matches eligible always_ids fact_ids (r ∷ rs) =
    match_of always_ids fact_ids r (lookup r.policy_id eligible)
    ++ mapped_matches eligible always_ids fact_ids rs

abbrev pub ids_of : List PolicyMatch → List String
ids_of ms = map (λ m. m.chunk.policy_id) ms

unfoldable pub contextual_matches : List String → List (PolicyChunk × Score) → List PolicyMatch
contextual_matches mapped_ids [] = []
contextual_matches mapped_ids ((c, s) ∷ ps) =
    let rest = contextual_matches mapped_ids ps in
    if contains mapped_ids c.policy_id
    then rest
    else record {
      chunk = c;
      score = s;
      reason = contextual_keyword;
      stage = none;
      matched_fact_ids = [];
      explanation = "The policy shares terms with the bounded investigation query.";
    }
      ∷ rest

abbrev pub selected_rules : AlertPolicyMapping → List String → List MappedPolicyRule
selected_rules m fact_ids =
    m.always_policy_rules ++ select (rule_applies fact_ids) m.conditional_policy_rules

abbrev pub eligible_chunks : PolicyIndex → String → ℕ → Dict PolicyChunk
eligible_chunks index jurisdiction as_of_date =
    chunks_by_id (select (is_eligible jurisdiction as_of_date) index.chunks) []

abbrev pub eligible_rules :
    PolicyIndex → String → ℕ → AlertPolicyMapping → List String → List MappedPolicyRule
eligible_rules index jurisdiction as_of_date m fact_ids =
    select (λ r. is_some (lookup r.policy_id (eligible_chunks index jurisdiction as_of_date)))
      (selected_rules m fact_ids)

module _ (index : PolicyIndex) (query jurisdiction : String) (as_of_date : ℕ)
    (facts : List PolicyApplicabilityFact) (limit : ℕ) where
  abbrev pub fact_ids : List String
  fact_ids = map (λ f. f.fact_id) facts

  unfoldable pub mapped_for : AlertPolicyMapping → List PolicyMatch
  unfolding mapped_matches
  mapped_for m =
      mapped_matches (eligible_chunks index jurisdiction as_of_date)
        (map (λ r. r.policy_id) m.always_policy_rules) fact_ids
        (eligible_rules index jurisdiction as_of_date m fact_ids)

  unfoldable pub search_mapping : Option AlertPolicyMapping → Result (List PolicyMatch)
  unfolding search contextual_matches mapped_for
  search_mapping none = err no_policy_mapping
  search_mapping (some m) =
      if ltb limit (length (eligible_rules index jurisdiction as_of_date m fact_ids))
      then err limit_too_small
      else search index query jurisdiction as_of_date 20 >>=ᵣ λ found. ok (
          mapped_for m
          ++ take (limit - length (mapped_for m))
              (contextual_matches (ids_of (mapped_for m)) found))

  unfoldable pub search_for_alert : String → Result (List PolicyMatch)
  unfolding search_mapping
  search_for_alert alert_rule_id =
      if not (limit_is_valid limit)
      then err limit_out_of_range
      else search_mapping (lookup alert_rule_id index.alert_mappings)
