-- ===== src/Api/Home.antt =====
-- The cases on the home page of src/amlguard/api/app.py.
use amlguard_eu_ai_agent.Prelude.{
  String, ◌≡◌, Option, none, some, List, [], ◌∷◌, arith, ◌&&◌, ◌==◌, eq_iff, Bool-cases, inl, inr,
  if◌then◌else◌,
}
use amlguard_eu_ai_agent.Prelude.Dict.{Dict, lookup, lookup-put}
use amlguard_eu_ai_agent.Prelude.Lists.{first}
use amlguard_eu_ai_agent.Domain.{CaseData}
use amlguard_eu_ai_agent.Auth.{Actor}
use amlguard_eu_ai_agent.Api.Access.{is_readable, set_default, add_visible}

-- The first of two options that is there.
abbrev or_else : {A : Type 0} → Option A → Option A → Option A
or_else none o = o
or_else (some a) o = some a

set_default-or_else :
    (a : String) (c : CaseData) (seen : Dict CaseData)
    → lookup a (set_default c.alert_id c seen)
      ≡ or_else (lookup a seen) (if c.alert_id == a then some c else none)
set_default-or_else a c seen = ground (arith, lookup-put c.alert_id a c seen, eq_iff c.alert_id a)

add_visible-or_else :
    (actor : Actor) (a : String) (cs : List CaseData) (seen : Dict CaseData)
    → lookup a (add_visible actor cs seen)
      ≡ or_else (lookup a seen) (first (λ c. is_readable actor c && c.alert_id == a) cs)
unfolding add_visible
add_visible-or_else actor a [] seen = ground arith
add_visible-or_else actor a (c ∷ cs) seen = elim (Bool-cases (is_readable actor c)) [
  | inl may ↦ rw may (
      ground (
        arith,
        add_visible-or_else actor a cs (set_default c.alert_id c seen),
        set_default-or_else a c seen,
      ))
  | inr may ↦ rw may (add_visible-or_else actor a cs seen)
]

-- Of a list of cases, the home page shows for every alert the first case of that alert that the actor
-- is allowed to read, and no case where there is none.
pub add_visible-first :
    (actor : Actor) (a : String) (cs : List CaseData)
    → lookup a (add_visible actor cs []) ≡ first (λ c. is_readable actor c && c.alert_id == a) cs
unfolding lookup
add_visible-first actor a cs = add_visible-or_else actor a cs []
