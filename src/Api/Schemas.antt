-- ===== src/Api/Schemas.antt =====
-- src/amlguard/api/schemas.py: the bodies of the requests and their validators, which the routes
-- answer with 422 where they fail. `json.dumps` with compact separators enters by the number of its
-- bytes in UTF-8.
use Prim.Native.String.{String, count}
use Prim.Native.Nat.{◌/◌}
use amlguard_eu_ai_agent.Policy.Words.{codes, is_space}
use amlguard_eu_ai_agent.Prelude.{
  ℕ, zero, Bool, true, false, Option, none, some, List, [], ◌∷◌, ◌+◌, ◌&&◌, ◌||◌, not, ◌==◌, leb,
  ltb, ◌=ℕ◌, if◌then◌else◌, is_ok, suc,
}
use amlguard_eu_ai_agent.Prelude.Dict.{Dict, keys, values}
use amlguard_eu_ai_agent.Prelude.Lists.{any, length, all}
use amlguard_eu_ai_agent.Domain.{
  Json, null, flag, num, str, arr, obj, Items, none_left, item, Fields, no_fields, field, to_fields,
  ReviewAction, Recommendation, validate_recommendation,
}

pub record StartInvestigationRequest : Type 0 where
  pub alert_id : String
  pub context_condition : String

-- `Literal["B0", "B5"]`
unfoldable pub valid_start : StartInvestigationRequest → Bool
valid_start body = body.context_condition == "B0" || body.context_condition == "B5"

pub record ResumeInvestigationRequest : Type 0 where
  pub information : Dict Json

abbrev pub ends_in_space : List ℕ → Bool
ends_in_space [] = false
ends_in_space (c ∷ []) = is_space c
ends_in_space (c ∷ d ∷ cs) = ends_in_space (d ∷ cs)

abbrev pub is_trimmed : List ℕ → Bool
is_trimmed [] = false
is_trimmed (c ∷ cs) = not (is_space c) && not (ends_in_space (c ∷ cs))

-- `key.strip() and key == key.strip() and len(key) <= 120`
abbrev pub is_field_name : String → Bool
is_field_name key = is_trimmed (codes key) && leb (count key) 120

-- `item not in (None, "")`
abbrev pub is_filled : Json → Bool
is_filled null = false
is_filled (str s) = not (s == "")
is_filled _ = true

-- The bytes of a character inside a JSON text: escapes, then UTF-8.
abbrev pub char_size : ℕ → ℕ
char_size c =
    if c =ℕ 34 || c =ℕ 92 || leb 8 c && leb c 10 || c =ℕ 12 || c =ℕ 13
    then 2
    else if ltb c 32
    then 6
    else if ltb c 0x80
    then 1
    else if ltb c 0x800
    then 2
    else if ltb c 0x10000
    then 3
    else 4

abbrev pub codes_size : List ℕ → ℕ
codes_size [] = 0
codes_size (c ∷ cs) = char_size c + codes_size cs

abbrev pub text_size : String → ℕ
text_size s = 2 + codes_size (codes s)

-- The bytes of a comma in front of the rest, if there is a rest.
abbrev pub comma_items : Items → ℕ
comma_items none_left = 0
comma_items _ = 1

abbrev pub comma_fields : Fields → ℕ
comma_fields no_fields = 0
comma_fields _ = 1

-- The decimal digits of a number; its own value is fuel enough.
unfoldable pub digits : (fuel n : ℕ) → ℕ
digits zero n = 1
digits (suc fuel) n = let rest = digits fuel (n / 10) in if ltb n 10 then 1 else 1 + rest

unfoldable mutual
  unfolding digits

  pub json_size : Json → ℕ
  json_size null = 4
  json_size (flag true) = 4
  json_size (flag false) = 5
  json_size (num n) = digits n n
  json_size (str s) = text_size s
  json_size (arr xs) = 2 + items_size xs
  json_size (obj fs) = 2 + fields_size fs

  pub items_size : Items → ℕ
  items_size none_left = 0
  items_size (item v xs) = json_size v + comma_items xs + items_size xs

  pub fields_size : Fields → ℕ
  fields_size no_fields = 0
  fields_size (field k v fs) = text_size k + 1 + json_size v + comma_fields fs + fields_size fs

-- The `Field` bounds and `validate_information`.
unfoldable pub valid_information : Dict Json → Bool
valid_information d =
    leb 1 (length d)
    && leb (length d) 50
    && all is_field_name (keys d)
    && any is_filled (values d)
    && leb (json_size (obj (to_fields d))) 32768

pub record HumanReviewRequest : Type 0 where
  pub recommendation_version : ℕ
  pub action : ReviewAction
  pub rationale : String
  pub edited_recommendation : Option Recommendation

abbrev pub valid_edit : Option Recommendation → Bool
valid_edit none = true
valid_edit (some r) = is_ok (validate_recommendation r)

-- The `Field` bounds, and the validators of the edited recommendation.
unfoldable pub valid_decision : HumanReviewRequest → Bool
valid_decision body =
    leb 1 body.recommendation_version
    && leb 1 (count body.rationale)
    && leb (count body.rationale) 4000
    && valid_edit body.edited_recommendation

-- The `Idempotency-Key` header of a route that bounds it.
abbrev pub valid_key : String → Bool
valid_key key = leb 1 (count key) && leb (count key) 200
