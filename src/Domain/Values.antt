-- ===== src/Domain/Values.antt =====
-- JSON values: the `Any` of evidence contents and audit payloads. Numbers are the natural ones.
use amlguard_eu_ai_agent.Prelude.{ℕ, String, Bool, ◌≡◌, refl, List, [], ◌∷◌}
use amlguard_eu_ai_agent.Prelude.Dict.{Dict}

mutual
  pub data Json : Type 0 where
    null : Json
    flag : Bool → Json
    num : ℕ → Json
    str : String → Json
    arr : Items → Json
    obj : Fields → Json

  pub data Items : Type 0 where
    none_left : Items
    item : Json → Items → Items

  pub data Fields : Type 0 where
    no_fields : Fields
    field : String → Json → Fields → Fields

abbrev pub to_fields : Dict Json → Fields
to_fields [] = no_fields
to_fields ((k, v) ∷ d) = field k v (to_fields d)

abbrev pub of_fields : Fields → Dict Json
of_fields no_fields = []
of_fields (field k v fs) = (k, v) ∷ of_fields fs

pub of_fields-to_fields : (d : Dict Json) → of_fields (to_fields d) ≡ d
of_fields-to_fields [] = refl
of_fields-to_fields ((k, v) ∷ d) = cc (of_fields-to_fields d)

-- A list of strings, as `model_dump(mode="json")` writes it.
abbrev pub strings : List String → Json
strings xs = arr (go xs)
  where
    go : List String → Items
    go [] = none_left
    go (x ∷ xs) = item (str x) (go xs)
