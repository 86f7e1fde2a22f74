-- ===== src/Tools/Postgres/Audited.antt =====
-- The audit of the tables against the one of the in-memory repository.
use amlguard_eu_ai_agent.Prelude.{
  ℕ, suc, String, Bool, true, false, ◌≡◌, refl, ap, ◌∙◌, Option, none, some, List, [], ◌∷◌, ◌++◌,
  ◌+◌, ◌≤◌, ◌||◌, ◌==◌, ◌=ℕ◌, arith, Result, ok, err, external_failure, ◌⊎◌, inl, inr, Bool-cases,
}
use amlguard_eu_ai_agent.Prelude.Dict.{Dict}
use amlguard_eu_ai_agent.Prelude.Lists.{last?, length, any}
use amlguard_eu_ai_agent.Domain.{Json}
use amlguard_eu_ai_agent.Governance.AuditChain.{
  AuditEvent, genesis_hash, IsChained, verify_chain, verify_chain_lem,
}
use amlguard_eu_ai_agent.Tools.Records.{Store}
use amlguard_eu_ai_agent.Tools.Repository.{Repository, hash_or, next_event, audit}
use amlguard_eu_ai_agent.Tools.Postgres.Creation as Postgres
use amlguard_eu_ai_agent.Tools.Repository.Chain.{next_event-IsChained}
use amlguard_eu_ai_agent.Tools.Postgres.Creation.{
  linked, later, last_event, sequence_of, hash_of, event_after, is_taken,
}

later-last : (e f : AuditEvent) → suc e.sequence ≤ f.sequence → later e (some f) ≡ f
later-last e f h = ground arith

hash_of_lem : (o : Option AuditEvent) → hash_of o ≡ hash_or genesis_hash o
hash_of_lem none = refl
hash_of_lem (some e) = refl

-- What an audit leaves, by whether its event breaks a unique constraint.
abbrev answered : {P : Type 0} → Bool → AuditEvent → Store P → Result (Unit {0}) × Store P
answered true e t = (err external_failure, t)
answered false e t = (ok tt, record t { events = t.events ++ e ∷ [] })

module _ (digest : Json → String) where
  -- The event of the greatest sequence is the last one of a chain.
  last_event-IsChained :
      (n : ℕ) (p : String) (e : AuditEvent) (es : List AuditEvent)
      → IsChained digest n p (e ∷ es)
      → (last_event (e ∷ es) ≡ last? (e ∷ es)) × (sequence_of (last_event (e ∷ es)) ≡ n + length es)
  unfolding last_event
  last_event-IsChained n p e [] h = (refl, omega (arith, h.0))
  last_event-IsChained n p e (x ∷ xs) h =
      let (same, count) = last_event-IsChained (suc n) e.event_hash x xs h.3 in
      let top : later e (last_event (x ∷ xs)) ≡ later x (last_event xs) =
        later-last e (later x (last_event xs)) (omega (arith, h.0, count)) in
      (ap some top ∙ same, rw top (omega (arith, count)))

  -- No event of a chain has a number behind its end.
  any-IsChained :
      (n m : ℕ) (p : String) (q : AuditEvent → Bool) (es : List AuditEvent)
      → IsChained digest n p es
      → n + length es ≤ m
      → any (λ f. f.sequence =ℕ m || q f) es ≡ any q es
  any-IsChained n m p q [] h le = refl
  any-IsChained n m p q (e ∷ es) h le =
      let behind : (e.sequence =ℕ m) ≡ false = ground (arith, h.0, le) in
      rw (behind, any-IsChained (suc n) m e.event_hash q es h.3 (omega (arith, le))) refl

  module _ (event_type actor_id case_id : String) (payload : Dict Json) where
    event_after-last_event :
        (es : List AuditEvent)
        → IsChained digest 1 genesis_hash es
        → event_after digest event_type actor_id case_id payload (last_event es)
          ≡ next_event digest event_type actor_id case_id payload es
    unfolding last_event
    event_after-last_event [] h = refl
    event_after-last_event (e ∷ es) h =
        let (same, count) = last_event-IsChained 1 genesis_hash e es h in
        let hash : hash_of (last_event (e ∷ es)) ≡ hash_or genesis_hash (last? (e ∷ es)) =
          hash_of_lem (last_event (e ∷ es)) ∙ ap (hash_or genesis_hash) same in
        let number : sequence_of (last_event (e ∷ es)) + 1 ≡ length (e ∷ es) + 1 =
          omega (arith, count) in
        ap
          (λ n. linked digest event_type actor_id case_id payload n (hash_of (last_event (e ∷ es))))
          number
        ∙ ap (linked digest event_type actor_id case_id payload (length (e ∷ es) + 1)) hash

    audit-answered :
        {P : Type 0} (t : Store P)
        → let e = event_after digest event_type actor_id case_id payload (last_event t.events) in
          Postgres.audit digest event_type actor_id case_id payload t
          ≡ answered (is_taken e t.events) e t
    unfolding Postgres.audit
    audit-answered t =
        let e = event_after digest event_type actor_id case_id payload (last_event t.events) in
        elim (Bool-cases (is_taken e t.events)) [
          | inl used ↦ rw used refl
          | inr fresh ↦ rw fresh refl
        ]

    audit-IsChained :
        {P : Type 0} (t : Store P)
        → IsChained digest 1 genesis_hash t.events
        → let e = next_event digest event_type actor_id case_id payload t.events in
          Postgres.audit digest event_type actor_id case_id payload t
          ≡ answered (any (λ f. f.event_hash == e.event_hash) t.events) e t
    audit-IsChained t h =
        let e = next_event digest event_type actor_id case_id payload t.events in
        audit-answered t
        ∙ ap (λ x. answered (is_taken x t.events) x t) (event_after-last_event t.events h)
        ∙ ap (λ b. answered b e t)
            (any-IsChained 1 e.sequence genesis_hash (λ f. f.event_hash == e.event_hash) t.events h
              (omega arith))

    -- For tables and an in-memory repository with the same events, which are numbered from 1 and
    -- linked by their hashes: where the hash of the next event is none of theirs, an audit on the
    -- tables returns and leaves the events that the repository's audit leaves, which are again
    -- linked and verify with no invalid sequence number; where it is one of theirs, the audit
    -- raises and leaves the tables as they were.
    pub audit-verify_chain :
        {P : Type 0} (t : Store P) (r : Repository)
        → r.audit_events ≡ t.events
        → IsChained digest 1 genesis_hash t.events
        → let (result, t') = Postgres.audit digest event_type actor_id case_id payload t in
          let taken =
            any
              (λ f.
                f.event_hash
                == (next_event digest event_type actor_id case_id payload t.events).event_hash)
              t.events in
          ((taken ≡ false)
            × (result ≡ ok tt)
            × (t'.events ≡ (audit digest event_type actor_id case_id payload r).1.audit_events)
            × IsChained digest 1 genesis_hash t'.events
            × (verify_chain digest t'.events ≡ []))
          ⊎ ((taken ≡ true) × (result ≡ err external_failure) × (t' ≡ t))
    unfolding audit
    audit-verify_chain t r same h =
        let e = next_event digest event_type actor_id case_id payload t.events in
        let chained = next_event-IsChained digest event_type actor_id case_id payload t.events h in
        rw (audit-IsChained t h, same)
          (elim (Bool-cases (any (λ f. f.event_hash == e.event_hash) t.events)) [
            | inl used ↦ rw used (inr (refl, refl, refl))
            | inr fresh ↦
                rw fresh (inl (refl, refl, refl, chained, verify_chain_lem digest _ chained))
          ])
