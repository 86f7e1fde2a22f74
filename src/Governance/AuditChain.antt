-- ===== src/Governance/AuditChain.antt =====
-- src/amlguard/governance/audit_chain.py. The SHA-256 digest of the canonical JSON text is the
-- parameter `digest`; what is hashed is the whole dictionary that the source builds.
pub mod Tampering
use amlguard_eu_ai_agent.Prelude.{
  ℕ, suc, String, Bool, true, false, ◌≡◌, refl, List, [], ◌∷◌, ◌++◌, ◌+◌, ◌||◌, not, ◌==◌, eq_refl,
  leb, arith, if◌then◌else◌,
}
use amlguard_eu_ai_agent.Prelude.Dict.{Dict}
use amlguard_eu_ai_agent.Domain.{Json, num, str, obj, no_fields, field, to_fields}

-- `"0" * 64`
abbrev pub genesis_hash : String
genesis_hash = "0000000000000000000000000000000000000000000000000000000000000000"

pub record AuditEvent : Type 0 where
  pub sequence : ℕ
  pub event_type : String
  pub actor_id : String
  pub case_id : String
  pub payload : Dict Json
  pub previous_hash : String
  pub event_hash : String

-- The dictionary that is dumped and hashed.
abbrev pub canonical : ℕ → String → String → String → Dict Json → String → Json
canonical sequence event_type actor_id case_id payload previous_hash = obj (
    field "sequence" (num sequence) (
      field "event_type" (str event_type) (
        field "actor_id" (str actor_id) (
          field "case_id" (str case_id) (
            field "payload" (obj (to_fields payload))
              (field "previous_hash" (str previous_hash) no_fields))))))

-- `sorted(events, key=lambda item: item.sequence)`, which is stable.
insert_event : AuditEvent → List AuditEvent → List AuditEvent
insert_event e [] = e ∷ []
insert_event e (x ∷ xs) =
    let rest = insert_event e xs in if leb e.sequence x.sequence then e ∷ x ∷ xs else x ∷ rest

unfoldable pub sort_events : List AuditEvent → List AuditEvent
unfolding insert_event
sort_events [] = []
sort_events (e ∷ es) = insert_event e (sort_events es)

module _ (digest : Json → String) where
  unfoldable pub calculate_event_hash : ℕ → String → String → String → Dict Json → String → String
  calculate_event_hash sequence event_type actor_id case_id payload previous_hash =
      digest (canonical sequence event_type actor_id case_id payload previous_hash)

  abbrev pub expected : AuditEvent → String → String
  expected e previous =
      calculate_event_hash e.sequence e.event_type e.actor_id e.case_id e.payload previous

  -- The loop of `verify_chain`, with its variable `previous`.
  unfoldable pub verify_from : String → List AuditEvent → List ℕ
  unfolding calculate_event_hash
  verify_from previous [] = []
  verify_from previous (e ∷ es) =
      let rest = verify_from e.event_hash es in
      if not (e.previous_hash == previous) || not (e.event_hash == expected e previous)
      then e.sequence ∷ rest
      else rest

  unfoldable pub verify_chain : List AuditEvent → List ℕ
  unfolding verify_from sort_events
  verify_chain events = verify_from genesis_hash (sort_events events)

  -- What the repositories append: numbered from `next`, each linked to the one before.
  abbrev pub IsChained : ℕ → String → List AuditEvent → Type 0
  IsChained next previous [] = Unit
  IsChained next previous (e ∷ es) =
      (e.sequence ≡ next)
      × (e.previous_hash ≡ previous)
      × (e.event_hash ≡ expected e previous)
      × IsChained (suc next) e.event_hash es

  insert_event_lem :
      (next : ℕ) (e : AuditEvent) (previous : String) (es : List AuditEvent)
      → e.sequence ≡ next
      → IsChained (suc next) previous es
      → insert_event e es ≡ e ∷ es
  unfolding insert_event
  insert_event_lem next e previous [] s h = refl
  insert_event_lem next e previous (x ∷ xs) s h = ground arith

  sort_events_lem :
      (next : ℕ) (previous : String) (es : List AuditEvent)
      → IsChained next previous es
      → sort_events es ≡ es
  unfolding sort_events
  sort_events_lem next previous [] h = refl
  sort_events_lem next previous (e ∷ es) h =
      rw (sort_events_lem (suc next) e.event_hash es h.3)
        (insert_event_lem next e e.event_hash es h.0 h.3)

  verify_from_lem :
      (next : ℕ) (previous : String) (es : List AuditEvent)
      → IsChained next previous es
      → verify_from previous es ≡ []
  unfolding verify_from
  verify_from_lem next previous [] h = refl
  verify_from_lem next previous (e ∷ es) h = ground (
    arith,
    verify_from_lem (suc next) e.event_hash es h.3,
    eq_refl previous,
    eq_refl (expected e previous),
  )

  -- A chain that was built by appending passes the verification with no invalid sequence number.
  pub verify_chain_lem : (es : List AuditEvent) → IsChained 1 genesis_hash es → verify_chain es ≡ []
  unfolding verify_chain
  verify_chain_lem es h =
      rw (sort_events_lem 1 genesis_hash es h) (verify_from_lem 1 genesis_hash es h)
