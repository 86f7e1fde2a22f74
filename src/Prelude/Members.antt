-- ===== src/Prelude/Members.antt =====
-- The members of a list, each with its place, which the library's truncated `Mem` forgets, and the
-- members that a test keeps.
use Prim.Native.String.{String}
use mathlib.Core.Path.{◌≡◌, subst, refl, ap}
use mathlib.Core.Logic.{◌⊎◌, ◌↔◌, inl, inr}
use mathlib.Core.Bool.{Bool, true, false}
use mathlib.Core.List.{List, [], ◌∷◌, ◌++◌}
use native.Mathlib.Omega.{arith}
use text.Mathlib.Text.{◌==◌}
use text.Mathlib.TextEquality.{eq_iff}
use amlguard_eu_ai_agent.Prelude.Tests.{Bool-cases}
use amlguard_eu_ai_agent.Prelude.Lists.{All, any, select}
use amlguard_eu_ai_agent.Prelude.Sets.{contains, subset, meets}

module _ {A : Type 0} where
  abbrev pub Mem : List A → A → Type 0
  Mem [] a = ⊥
  Mem (x ∷ xs) a = (x ≡ a) ⊎ Mem xs a

  pub All-from : (P : A → Type 0) (xs : List A) → ((a : A) → Mem xs a → P a) → All P xs
  All-from P [] h = tt
  All-from P (x ∷ xs) h = (h x (inl refl), All-from P xs (λ a m. h a (inr m)))

  pub All-at : (P : A → Type 0) (xs : List A) (a : A) → Mem xs a → All P xs → P a
  All-at P [] a m h = absurd m
  All-at P (x ∷ xs) a m h = elim m [ inl e ↦ subst P e h.0 | inr k ↦ All-at P xs a k h.1 ]

  pub All-members : (xs : List A) → All (Mem xs) xs
  All-members xs = All-from (Mem xs) xs (λ a m. m)

  pub All-weaken : (P Q : A → Type 0) (xs : List A) → ((a : A) → P a → Q a) → All P xs → All Q xs
  All-weaken P Q [] f h = tt
  All-weaken P Q (x ∷ xs) f h = (f x h.0, All-weaken P Q xs f h.1)

  pub All-kept : (P : A → Type 0) (p : A → Bool) (xs : List A) → All P xs → All P (select p xs)
  All-kept P p [] h = tt
  All-kept P p (x ∷ xs) h = ground (arith, All-kept P p xs h.1)

  pub Mem-select :
      (p : A → Bool) (xs : List A) (a : A) → Mem xs a → p a ≡ true → Mem (select p xs) a
  Mem-select p [] a m h = m
  Mem-select p (x ∷ xs) a m h = elim m [
    | inl e ↦ let first : p x ≡ true = rw e h in rw first (inl e)
    | inr k ↦ elim (Bool-cases (p x)) [
      | inl holds ↦ rw holds (inr (Mem-select p xs a k h))
      | inr fails ↦ rw fails (Mem-select p xs a k h)
    ]
  ]

  pub All-both : (P Q : A → Type 0) (xs : List A) → All P xs → All Q xs → All (λ a. P a × Q a) xs
  All-both P Q [] h k = tt
  All-both P Q (x ∷ xs) h k = ((h.0, k.0), All-both P Q xs h.1 k.1)

  pub Mem-append : (xs ys : List A) (a : A) → Mem (xs ++ ys) a ↔ (Mem xs a ⊎ Mem ys a)
  Mem-append [] ys a = (λ m. inr m, λ m. elim m [ inl z ↦ absurd z | inr k ↦ k ])
  Mem-append (x ∷ xs) ys a = (
    λ m. elim m [
      | inl e ↦ inl (inl e)
      | inr k ↦ elim ((Mem-append xs ys a).0 k) [ inl l ↦ inl (inr l) | inr r ↦ inr r ]
    ],
    λ m. elim m [
      | inl h ↦ elim h [ inl e ↦ inl e | inr l ↦ inr ((Mem-append xs ys a).1 (inl l)) ]
      | inr r ↦ inr ((Mem-append xs ys a).1 (inr r))
    ],
  )

  -- `ys` are, in order, the members of `xs` that satisfy `P`.
  pub data Sifted (P : A → Type 0) : List A → List A → Type 0 where
    over : Sifted P [] []
    kept : {x : A} {xs ys : List A} → P x → Sifted P xs ys → Sifted P (x ∷ xs) (x ∷ ys)
    dropped : {x : A} {xs ys : List A} → ¬ P x → Sifted P xs ys → Sifted P (x ∷ xs) ys

  pub select-Sifted :
      (P : A → Type 0) (p : A → Bool) (xs : List A)
      → ((a : A) → (p a ≡ true) ↔ P a)
      → Sifted P xs (select p xs)
  select-Sifted P p [] h = over
  select-Sifted P p (x ∷ xs) h = elim (Bool-cases (p x)) [
    | inl holds ↦ rw holds (kept ((h x).0 holds) (select-Sifted P p xs h))
    | inr fails ↦
        rw fails (dropped (λ q. ground (arith, fails, (h x).1 q)) (select-Sifted P p xs h))
  ]

  pub Sifted-unique :
      (P : A → Type 0) (xs ys zs : List A) → Sifted P xs ys → Sifted P xs zs → ys ≡ zs
  Sifted-unique P _ _ _ over over = refl
  Sifted-unique P _ _ _ (kept {x = x} p s) (kept q t) = ap (λ l. x ∷ l) (Sifted-unique P _ _ _ s t)
  Sifted-unique P _ _ _ (kept p s) (dropped q t) = absurd (q p)
  Sifted-unique P _ _ _ (dropped p s) (kept q t) = absurd (p q)
  Sifted-unique P _ _ _ (dropped p s) (dropped q t) = Sifted-unique P _ _ _ s t

  pub any-All :
      (p : A → Bool) (P : A → Type 0) (xs : List A)
      → ((a : A) → (p a ≡ false) ↔ P a)
      → (any p xs ≡ false) ↔ All P xs
  any-All p P [] h = (λ e. tt, λ e. refl)
  any-All p P (x ∷ xs) h = (
    λ e. ((h x).0 (ground (arith, e)), (any-All p P xs h).0 (ground (arith, e))),
    λ q. ground (arith, (h x).1 q.0, (any-All p P xs h).1 q.1),
  )

pub contains_iff : (xs : List String) (a : String) → (contains xs a ≡ true) ↔ Mem xs a
contains_iff [] a = (λ e. absurd (cc e), λ m. absurd m)
contains_iff (x ∷ xs) a = (
  λ e. elim (Bool-cases (x == a)) [
    | inl holds ↦ inl ((eq_iff x a).0 holds)
    | inr fails ↦ inr ((contains_iff xs a).0 (ground (arith, fails, e)))
  ],
  λ m. elim m [
    | inl e ↦ ground (arith, (eq_iff x a).1 e)
    | inr k ↦ ground (arith, (contains_iff xs a).1 k)
  ],
)

pub subset_iff : (xs ys : List String) → (subset xs ys ≡ true) ↔ All (Mem ys) xs
subset_iff [] ys = (λ e. tt, λ e. refl)
subset_iff (x ∷ xs) ys = (
  λ e. ((contains_iff ys x).0 (ground (arith, e)), (subset_iff xs ys).0 (ground (arith, e))),
  λ q. ground (arith, (contains_iff ys x).1 q.0, (subset_iff xs ys).1 q.1),
)

pub meets_iff : (xs ys : List String) → (meets xs ys ≡ true) ↔ ((a : String) × Mem xs a × Mem ys a)
meets_iff [] ys = (λ e. absurd (cc e), λ m. absurd m.1)
meets_iff (x ∷ xs) ys = (
  λ e. elim (Bool-cases (contains ys x)) [
    | inl holds ↦ (x, inl refl, (contains_iff ys x).0 holds)
    | inr fails ↦
        let (a, here, there) = (meets_iff xs ys).0 (ground (arith, fails, e)) in
        (a, inr here, there)
  ],
  λ (a, here, there). elim here [
    | inl e ↦ ground (arith, (contains_iff ys x).1 (rw e there))
    | inr k ↦ ground (arith, (meets_iff xs ys).1 (a, k, there))
  ],
)
