-- ===== src/Governance/AuditChain/Tampering.antt =====
-- What the audit chain protects against: two chains that verify and end in one hash are one chain.
use native.Mathlib.Decide.{ℕ_discrete}
use amlguard_eu_ai_agent.Prelude.{
  String, ◌≡◌, ◌≢◌, refl, sym, ap, ◌∙◌, List, [], ◌∷◌, ◌⊎◌, inl, inr, ◌==◌, eq_iff, arith,
  Bool-cases,
}
use amlguard_eu_ai_agent.Prelude.Lists.{length}
use amlguard_eu_ai_agent.Prelude.Members.{Mem}
use amlguard_eu_ai_agent.Domain.{Json, to_fields, of_fields, of_fields-to_fields}
use amlguard_eu_ai_agent.Governance.AuditChain.{
  AuditEvent, canonical, verify_from, verify_chain, sort_events, genesis_hash,
}

String-discrete : Discrete String
String-discrete s t = elim (Bool-cases (s == t)) [
  | inl e ↦ yes ((eq_iff s t).0 e)
  | inr e ↦ no (λ p. ground (arith, eq_iff s t))
]

Json-discrete : Discrete Json
Json-discrete = hlevel (ℕ_discrete, String-discrete)

-- The events of two logs, position by position.
abbrev pub zip : List AuditEvent → List AuditEvent → List (AuditEvent × AuditEvent)
zip [] fs = []
zip (e ∷ es) [] = []
zip (e ∷ es) (f ∷ fs) = (e, f) ∷ zip es fs

module _ (digest : Json → String) where
  -- The dictionary that is hashed.
  abbrev pub hashed : AuditEvent → String → Json
  hashed e previous = canonical e.sequence e.event_type e.actor_id e.case_id e.payload previous

  -- Two events at one position of the two logs whose hashed dictionaries differ and yet have one
  -- digest, which both events show as their hash.
  pub record Collision (es fs : List AuditEvent) : Type 0 where
    pub left : AuditEvent
    pub right : AuditEvent
    pub paired : Mem (zip es fs) (left, right)
    pub differ : hashed left left.previous_hash ≢ hashed right right.previous_hash
    pub same : digest (hashed left left.previous_hash) ≡ digest (hashed right right.previous_hash)
    pub shown : left.event_hash ≡ digest (hashed left left.previous_hash)
    pub shown_too : right.event_hash ≡ digest (hashed right right.previous_hash)

  abbrev pub end_hash : String → List AuditEvent → String
  end_hash previous [] = previous
  end_hash previous (e ∷ es) = end_hash e.event_hash es

  links :
      (previous : String) (e : AuditEvent) (es : List AuditEvent)
      → verify_from digest previous (e ∷ es) ≡ []
      → (e.previous_hash ≡ previous)
        × (e.event_hash ≡ digest (hashed e previous))
        × (verify_from digest e.event_hash es ≡ [])
  unfolding verify_from
  links previous e es h =
      ground
        (arith, eq_iff e.previous_hash previous, eq_iff e.event_hash (digest (hashed e previous)))

  payloads :
      (e f : AuditEvent) (p q : String)
      → hashed e p ≡ hashed f q
      → to_fields e.payload ≡ to_fields f.payload
  payloads e f p q h = cc

  same_event :
      (p q : String) (e f : AuditEvent)
      → e.previous_hash ≡ p
      → f.previous_hash ≡ q
      → e.event_hash ≡ f.event_hash
      → hashed e p ≡ hashed f q
      → (p ≡ q) × (e ≡ f)
  same_event p q e f hp hq he h =
      let back : e.payload ≡ f.payload =
        sym (of_fields-to_fields e.payload)
        ∙ ap of_fields (payloads e f p q h)
        ∙ of_fields-to_fields f.payload in
      (cc, cc)

  -- Two verified lists of one length whose last hashes agree agree in every event and link, or
  -- show a collision of the digest.
  verify_from_inj :
      (p q : String) (es fs : List AuditEvent)
      → length es ≡ length fs
      → verify_from digest p es ≡ []
      → verify_from digest q fs ≡ []
      → end_hash p es ≡ end_hash q fs
      → ((p ≡ q) × (es ≡ fs)) ⊎ Collision es fs
  verify_from_inj p q [] [] l hp hq h = inl (h, refl)
  verify_from_inj p q [] (f ∷ fs) l hp hq h = absurd (omega arith)
  verify_from_inj p q (e ∷ es) [] l hp hq h = absurd (omega arith)
  verify_from_inj p q (e ∷ es) (f ∷ fs) l hp hq h =
      let (pe, he, re) = links p e es hp in
      let (pf, hf, rf) = links q f fs hq in
      elim (verify_from_inj e.event_hash f.event_hash es fs (omega arith) re rf h) [
        | inr c ↦ inr (record {
          left = c.left;
          right = c.right;
          paired = inr c.paired;
          differ = c.differ;
          same = c.same;
          shown = c.shown;
          shown_too = c.shown_too;
        })
        | inl (ends, rest) ↦ elim (Json-discrete (hashed e p) (hashed f q)) [
          | no differ ↦ inr (record {
            left = e;
            right = f;
            paired = inl refl;
            differ = rw (pe, pf) differ;
            same = rw (pe, pf) (sym he ∙ ends ∙ hf);
            shown = rw pe he;
            shown_too = rw pf hf;
          })
          | yes equal ↦ let (pq, ef) = same_event p q e f pe pf ends equal in inl (pq, cc)
        ]
      ]

  -- If two event logs of equal length both verify with no invalid sequence number, and the last
  -- event hashes of their chains (in sequence order) agree, then the chains are equal event by
  -- event, or at some position they have two events whose hashed dictionaries differ, the order of
  -- keys counted, and yet have the same digest, which is the hash that both events show.
  pub verify_chain-tamper_evident :
      (es fs : List AuditEvent)
      → length (sort_events es) ≡ length (sort_events fs)
      → verify_chain digest es ≡ []
      → verify_chain digest fs ≡ []
      → end_hash genesis_hash (sort_events es) ≡ end_hash genesis_hash (sort_events fs)
      → (sort_events es ≡ sort_events fs) ⊎ Collision (sort_events es) (sort_events fs)
  unfolding verify_chain
  verify_chain-tamper_evident es fs l he hf h =
      elim (verify_from_inj genesis_hash genesis_hash (sort_events es) (sort_events fs) l he hf h) [
        | inl (_, same) ↦ inl same
        | inr c ↦ inr c
      ]
