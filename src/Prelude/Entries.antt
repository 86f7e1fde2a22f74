-- ===== src/Prelude/Entries.antt =====
-- Dictionaries with one entry for each key, as Python keeps them.
use Prim.Native.String.{String}
use mathlib.Core.Path.{◌≡◌, refl}
use mathlib.Core.Bool.{true, false}
use mathlib.Core.Option.{some}
use mathlib.Core.List.{[], ◌∷◌}
use native.Mathlib.Omega.{arith}
use text.Mathlib.Text.{◌==◌}
use text.Mathlib.TextEquality.{eq_iff}
use text.Mathlib.TextPositions.{eq_refl}
use amlguard_eu_ai_agent.Prelude.Tests.{if◌then◌else◌}
use amlguard_eu_ai_agent.Prelude.Sets.{contains, all_distinct}
use amlguard_eu_ai_agent.Prelude.Lists.{All}
use amlguard_eu_ai_agent.Prelude.Dict.{Dict, lookup, put, remove, keys}

module _ {ℓ} {V : Type ℓ} where
  pub contains-keys-put :
      (k j : String) (v : V) (d : Dict V)
      → contains (keys (put k v d)) j ≡ (if k == j then true else contains (keys d) j)
  unfolding keys put
  contains-keys-put k j v [] = ground arith
  contains-keys-put k j v ((i, w) ∷ d) =
      ground (arith, contains-keys-put k j v d, eq_iff i k, eq_iff i j, eq_iff k j)

  pub contains-keys-remove :
      (k j : String) (d : Dict V)
      → contains (keys (remove k d)) j ≡ (if k == j then false else contains (keys d) j)
  unfolding keys remove
  contains-keys-remove k j [] = ground arith
  contains-keys-remove k j ((i, w) ∷ d) =
      ground (arith, contains-keys-remove k j d, eq_iff i k, eq_iff i j, eq_iff k j)

  pub all_distinct-keys-put :
      (k : String) (v : V) (d : Dict V)
      → all_distinct (keys d) ≡ true
      → all_distinct (keys (put k v d)) ≡ true
  unfolding keys put
  all_distinct-keys-put k v [] h = refl
  all_distinct-keys-put k v ((i, w) ∷ d) h =
      ground (arith, all_distinct-keys-put k v d, contains-keys-put k i v d, eq_iff i k, eq_iff k i)

  pub all_distinct-keys-remove :
      (k : String) (d : Dict V)
      → all_distinct (keys d) ≡ true
      → all_distinct (keys (remove k d)) ≡ true
  unfolding keys remove
  all_distinct-keys-remove k [] h = refl
  all_distinct-keys-remove k ((i, w) ∷ d) h =
      ground (arith, all_distinct-keys-remove k d, contains-keys-remove k i d)

  -- An entry that is found under its key.
  abbrev pub Found : Dict V → String × V → Type ℓ
  Found d e = lookup e.0 d ≡ some e.1

  behind_entry :
      (k : String) (v : V) (d whole : Dict V)
      → contains (keys d) k ≡ false
      → All (Found whole) d
      → All (Found ((k, v) ∷ whole)) d
  unfolding keys lookup
  behind_entry k v [] whole h f = tt
  behind_entry k v ((j, w) ∷ d) whole h (f, fs) =
      (ground (arith, eq_iff k j, eq_iff j k), behind_entry k v d whole (ground arith) fs)

  pub keys-Found : (d : Dict V) → all_distinct (keys d) ≡ true → All (Found d) d
  unfolding keys lookup
  keys-Found [] h = tt
  keys-Found ((k, v) ∷ d) h =
      (ground (arith, eq_refl k), behind_entry k v d d (ground arith) (keys-Found d (ground arith)))
