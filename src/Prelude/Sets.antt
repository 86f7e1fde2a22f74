-- ===== src/Prelude/Sets.antt =====
-- Python's sets of strings as lists with a Boolean membership test, and `sorted(...)` of a set.
use Prim.Native.String.{String, compare}
use mathlib.Core.Path.{◌≡◌, refl}
use mathlib.Core.Bool.{Bool, true, false, not, ◌&&◌, ◌||◌}
use mathlib.Core.List.{List, [], ◌∷◌, ◌++◌}
use native.Mathlib.Omega.{arith}
use text.Mathlib.Text.{◌==◌, is_lt}
use text.Mathlib.TextEquality.{eq_iff}
use amlguard_eu_ai_agent.Prelude.Tests.{if◌then◌else◌}
use amlguard_eu_ai_agent.Prelude.Lists.{select}

abbrev pub contains : List String → String → Bool
contains [] a = false
contains (x ∷ xs) a = x == a || contains xs a

-- The order of `sorted` on strings: by code points.
abbrev pub str_lt : String → String → Bool
str_lt a b = is_lt (compare a b)

-- One more element of a set that is kept sorted.
unfoldable pub insert : String → List String → List String
insert a [] = a ∷ []
insert a (x ∷ xs) =
    let rest = insert a xs in if a == x then x ∷ xs else if str_lt a x then a ∷ x ∷ xs else x ∷ rest

-- `sorted(set(xs))`
unfoldable pub sorted_set : List String → List String
unfolding insert
sorted_set [] = []
sorted_set (x ∷ xs) = insert x (sorted_set xs)

-- `sorted(set(xs) - set(ys))`
unfoldable pub difference : List String → List String → List String
unfolding sorted_set
difference xs ys = sorted_set (select (λ x. not (contains ys x)) xs)

-- `set(xs) <= set(ys)`
abbrev pub subset : List String → List String → Bool
subset [] ys = true
subset (x ∷ xs) ys = contains ys x && subset xs ys

-- `bool(set(xs) & set(ys))`
abbrev pub meets : List String → List String → Bool
meets [] ys = false
meets (x ∷ xs) ys = contains ys x || meets xs ys

-- `len(xs) == len(set(xs))`
abbrev pub all_distinct : List String → Bool
all_distinct [] = true
all_distinct (x ∷ xs) = not (contains xs x) && all_distinct xs

pub contains-append :
    (xs ys : List String) (a : String) → contains (xs ++ ys) a ≡ (contains xs a || contains ys a)
contains-append [] ys a = refl
contains-append (x ∷ xs) ys a = ground (arith, contains-append xs ys a)

pub contains-insert :
    (b : String) (xs : List String) (a : String)
    → contains (insert b xs) a ≡ (b == a || contains xs a)
unfolding insert
contains-insert b [] a = refl
contains-insert b (x ∷ xs) a =
    ground (arith, contains-insert b xs a, eq_iff b x, eq_iff b a, eq_iff x a)

pub contains-sorted_set :
    (xs : List String) (a : String) → contains (sorted_set xs) a ≡ contains xs a
unfolding sorted_set
contains-sorted_set [] a = refl
contains-sorted_set (x ∷ xs) a =
    ground (arith, contains-sorted_set xs a, contains-insert x (sorted_set xs) a)

pub contains-select :
    (p : String → Bool) (xs : List String) (a : String)
    → contains (select p xs) a ≡ (p a && contains xs a)
contains-select p [] a = ground arith
contains-select p (x ∷ xs) a = ground (arith, contains-select p xs a, eq_iff x a)

pub contains-difference :
    (xs ys : List String) (a : String)
    → contains (difference xs ys) a ≡ (not (contains ys a) && contains xs a)
unfolding difference
contains-difference xs ys a = ground (
  arith,
  contains-sorted_set (select (λ x. not (contains ys x)) xs) a,
  contains-select (λ x. not (contains ys x)) xs a,
)
