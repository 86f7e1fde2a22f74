-- ===== src/Tools/Repository/Chain.antt =====
-- Appending an audit event keeps the chain linked.
use amlguard_eu_ai_agent.Prelude.{ℕ, suc, String, ◌≡◌, refl, ◌∙◌, List, [], ◌∷◌, ◌++◌, ◌+◌, arith}
use amlguard_eu_ai_agent.Prelude.Dict.{Dict}
use amlguard_eu_ai_agent.Prelude.Lists.{last?, length}
use amlguard_eu_ai_agent.Domain.{Json}
use amlguard_eu_ai_agent.Governance.AuditChain.{AuditEvent, genesis_hash, expected, IsChained}
use amlguard_eu_ai_agent.Tools.Repository.{hash_or, next_event}

hash_or_any :
    (p q : String) (e : AuditEvent) (es : List AuditEvent)
    → hash_or p (last? (e ∷ es)) ≡ hash_or q (last? (e ∷ es))
hash_or_any p q e [] = refl
hash_or_any p q e (x ∷ xs) = hash_or_any p q x xs

hash_or_cons :
    (p : String) (e : AuditEvent) (es : List AuditEvent)
    → hash_or p (last? (e ∷ es)) ≡ hash_or e.event_hash (last? es)
hash_or_cons p e [] = refl
hash_or_cons p e (x ∷ xs) = hash_or_any p e.event_hash x xs

module _ (digest : Json → String) where
  IsChained-snoc :
      (n : ℕ) (p : String) (es : List AuditEvent) (e : AuditEvent)
      → IsChained digest n p es
      → e.sequence ≡ n + length es
      → e.previous_hash ≡ hash_or p (last? es)
      → e.event_hash ≡ expected digest e e.previous_hash
      → IsChained digest n p (es ++ e ∷ [])
  IsChained-snoc n p [] e h s q x = (omega arith, q, cc, tt)
  IsChained-snoc n p (y ∷ ys) e h s q x = (
    h.0,
    h.1,
    h.2,
    IsChained-snoc (suc n) y.event_hash ys e h.3 (omega arith) (q ∙ hash_or_cons p y ys) x,
  )

  -- The event that `audit` appends continues the chain.
  pub next_event-IsChained :
      (event_type actor_id case_id : String) (payload : Dict Json) (es : List AuditEvent)
      → IsChained digest 1 genesis_hash es
      → IsChained digest 1 genesis_hash
          (es ++ next_event digest event_type actor_id case_id payload es ∷ [])
  next_event-IsChained event_type actor_id case_id payload es h =
      IsChained-snoc 1 genesis_hash es _ h (omega arith) refl refl
