-- ===== src/Prelude/Triples.antt =====
-- Triples of actions: a precondition, what holds after a return, and what holds after a raise.
use mathlib.Core.Path.{◌≡◌, refl}
use amlguard_eu_ai_agent.Prelude.Results.{Result, ok, err, Action, pure, lift, continue, ◌>>=◌}

abbrev pub After : {S A : Type 0} → (A → S → Type 0) → (S → Type 0) → Result A → S → Type 0
After Q E (ok a) s = Q a s
After Q E (err e) s = E s

pub record Triple {S A : Type 0} (P : S → Type 0) (m : Action S A) (Q : A → S → Type 0)
    (E : S → Type 0) : Type 0 where
  pub at : (s : S) → P s → After Q E (m s).0 (m s).1

module _ {S A : Type 0} {P : S → Type 0} where
  pub Triple-pure :
      (Q : A → S → Type 0) (E : S → Type 0) (a : A)
      → ((s : S) → P s → Q a s)
      → Triple P (pure a) Q E
  Triple-pure Q E a h = record { at = h }

  -- A result that was computed without the state.
  pub Triple-lift :
      (E : S → Type 0) (r : Result A)
      → ((s : S) → P s → E s)
      → Triple P (lift r) (λ a s. P s × (r ≡ ok a)) E
  Triple-lift E (ok a) h = record { at = λ s p. (p, refl) }
  Triple-lift E (err e) h = record { at = h }

module _ {S A : Type 0} {Q Q' : A → S → Type 0} {E E' : S → Type 0} where
  After-weaken :
      (r : Result A) (s : S)
      → ((a : A) (s : S) → Q a s → Q' a s)
      → ((s : S) → E s → E' s)
      → After Q E r s
      → After Q' E' r s
  After-weaken (ok a) s q e h = q a s h
  After-weaken (err x) s q e h = e s h

  pub Triple-weaken :
      {P P' : S → Type 0} (m : Action S A)
      → ((s : S) → P' s → P s)
      → ((a : A) (s : S) → Q a s → Q' a s)
      → ((s : S) → E s → E' s)
      → Triple P m Q E
      → Triple P' m Q' E'
  Triple-weaken m p q e t = record { at = λ s h. After-weaken (m s).0 (m s).1 q e (t.at s (p s h)) }

module _ {S A B : Type 0} {Q : A → S → Type 0} {R : B → S → Type 0} {E : S → Type 0} where
  continue-After :
      (r : Result A) (f : A → Action S B) (s : S)
      → ((a : A) → Triple (Q a) (f a) R E)
      → After Q E r s
      → After R E (continue r f s).0 (continue r f s).1
  continue-After (ok a) f s t h = (t a).at s h
  continue-After (err e) f s t h = h

  pub Triple-bind :
      {P : S → Type 0} (m : Action S A) (f : A → Action S B)
      → Triple P m Q E
      → ((a : A) → Triple (Q a) (f a) R E)
      → Triple P (m >>= f) R E
  Triple-bind m f t u = record {
    at = λ s h. let (r, s') = m s in continue-After r f s' u (t.at s h);
  }

-- A part of the precondition that is not about the state.
pub Triple-given :
    {S A : Type 0} {P : S → Type 0} {C : Type 0} {Q : A → S → Type 0} {E : S → Type 0}
    (m : Action S A)
    → (C → Triple P m Q E)
    → Triple (λ s. P s × C) m Q E
Triple-given m t = record { at = λ s h. (t h.1).at s h.0 }
