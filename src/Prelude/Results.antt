-- ===== src/Prelude/Results.antt =====
-- Python's exceptions as values: one constructor for each place that raises, and a method that
-- mutates and may raise as an action. What was written before a raise stays written.
use mathlib.Core.Path.{◌≡◌, refl}
use mathlib.Core.Logic.{◌⊎◌, inl, inr}
use mathlib.Core.Bool.{Bool, true, false}

pub data Exception : Type 0 where
  unknown_key : Exception
  alert_assigned_elsewhere : Exception
  duplicate_review : Exception
  review_already_assigned : Exception
  not_lease_owner : Exception
  cost_ceiling_exceeded : Exception
  experiment_stopped : Exception
  different_manifest : Exception
  evidence_collision : Exception
  tool_not_authorized : Exception
  limit_out_of_range : Exception
  limit_too_small : Exception
  no_policy_mapping : Exception
  duplicate_mapping : Exception
  unknown_policy_ids : Exception
  missing_evidence_type : Exception
  invalid_payload : Exception
  hard_blocked_case : Exception
  stale_version : Exception
  not_waiting_for_information : Exception
  case_running : Exception
  unknown_security_event : Exception
  external_failure : Exception

pub data Result {ℓ} (A : Type ℓ) : Type ℓ where
  ok : A → Result A
  err : Exception → Result A

infixl 5 ◌>>=ᵣ◌
abbrev pub ◌>>=ᵣ◌ {ℓ κ} : {A : Type ℓ} {B : Type κ} → Result A → (A → Result B) → Result B
ok a >>=ᵣ f = f a
err e >>=ᵣ f = err e

abbrev pub is_ok {ℓ} : {A : Type ℓ} → Result A → Bool
is_ok (ok a) = true
is_ok (err e) = false

-- An action on a state `S`.
abbrev pub Action : Type 0 → Type 0 → Type 0
Action S A = S → Result A × S

module _ {S A : Type 0} where
  abbrev pub pure : A → Action S A
  pure a s = (ok a, s)

  abbrev pub raise : Exception → Action S A
  raise e s = (err e, s)

  abbrev pub lift : Result A → Action S A
  lift r s = (r, s)

  abbrev pub gets : (S → A) → Action S A
  gets f s = (ok (f s), s)

abbrev pub modify : {S : Type 0} → (S → S) → Action S Unit
modify f s = (ok tt, f s)

module _ {S A B : Type 0} where
  abbrev pub continue : Result A → (A → Action S B) → Action S B
  continue (ok a) f s = f a s
  continue (err e) f s = (err e, s)

  infixl 5 ◌>>=◌ ◌>>◌
  abbrev pub ◌>>=◌ : Action S A → (A → Action S B) → Action S B
  ◌>>=◌ m f s = let (r, s') = m s in continue r f s'

  abbrev pub ◌>>◌ : Action S A → Action S B → Action S B
  m >> n = m >>= λ _. n

abbrev pub guard : {S : Type 0} → Bool → Exception → Action S Unit
guard true e = pure tt
guard false e = raise e

pub Result-cases {ℓ} :
    {A : Type ℓ} (r : Result A) → ((a : A) × (r ≡ ok a)) ⊎ ((e : Exception) × (r ≡ err e))
Result-cases (ok a) = inl (a, refl)
Result-cases (err e) = inr (e, refl)
