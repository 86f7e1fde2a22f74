-- ===== src/Api/Progress/Linked.antt =====
-- The two dictionaries of the job store agree: a run leads to a stored job of that run, so that no
-- progress hook raises.
use amlguard_eu_ai_agent.Prelude.{
  String, true, ◌≡◌, none, some, List, [], ◌∷◌, arith, eq_iff, ◌==◌, Bool-cases, inl, inr, leb, ℕ,
  zero, suc,
}
use amlguard_eu_ai_agent.Prelude.Dict.{lookup, keys, lookup-put, lookup-remove}
use amlguard_eu_ai_agent.Prelude.Lists.{All, take, length}
use amlguard_eu_ai_agent.Prelude.Sets.{all_distinct}
use amlguard_eu_ai_agent.Prelude.Entries.{
  Found, keys-Found, all_distinct-keys-put, all_distinct-keys-remove,
}
use amlguard_eu_ai_agent.Api.Progress.{
  InvestigationJob, JobStore, dropped, drop_all, terminal, prune, added, of_case, discard_case,
  with_job, is_running,
}

pub record Linked (s : JobStore) : Type 0 where
  pub distinct : all_distinct (keys s.jobs) ≡ true
  pub tracked :
      (run id : String)
      → lookup run s.by_run ≡ some id
      → (job : InvestigationJob) × (lookup id s.jobs ≡ some job) × (job.run_id ≡ run)

-- An entry is of the run that the store has under its identifier, if any.
abbrev Agrees : JobStore → String × InvestigationJob → Type 0
Agrees s e = (job : InvestigationJob) → lookup e.0 s.jobs ≡ some job → job.run_id ≡ e.1.run_id

dropped-Agrees :
    (id : String) (job : InvestigationJob) (s : JobStore) (e : String × InvestigationJob)
    → Agrees s e
    → Agrees (dropped id job s) e
dropped-Agrees id job s e h x f = h x (ground (arith, lookup-remove id e.0 s.jobs, eq_iff id e.0))

dropped-all_Agrees :
    (id : String) (job : InvestigationJob) (s : JobStore) (es : List (String × InvestigationJob))
    → All (Agrees s) es
    → All (Agrees (dropped id job s)) es
dropped-all_Agrees id job s [] h = tt
dropped-all_Agrees id job s (e ∷ es) (h, hs) =
    (dropped-Agrees id job s e h, dropped-all_Agrees id job s es hs)

dropped-Linked :
    (id : String) (job : InvestigationJob) (s : JobStore)
    → Agrees s (id, job)
    → Linked s
    → Linked (dropped id job s)
dropped-Linked id job s agrees h = record {
  distinct = all_distinct-keys-remove id s.jobs h.distinct;
  tracked = λ run i e.
      let old : lookup run s.by_run ≡ some i =
        ground (arith, lookup-remove job.run_id run s.by_run) in
      let (x, found, own) = h.tracked run i old in
      elim (Bool-cases (id == i)) [
        | inl same ↦
            let at : lookup id s.jobs ≡ some x = ground (arith, eq_iff id i) in
            absurd (
              ground (
                arith,
                agrees x at,
                own,
                lookup-remove job.run_id run s.by_run,
                eq_iff job.run_id run,
              ))
        | inr other ↦ (x, ground (arith, lookup-remove id i s.jobs), own)
      ];
}

pub drop_all-Linked :
    (es : List (String × InvestigationJob)) (s : JobStore)
    → All (Agrees s) es
    → Linked s
    → Linked (drop_all es s)
unfolding drop_all
drop_all-Linked [] s a h = h
drop_all-Linked ((id, job) ∷ es) s (a, as') h =
    drop_all-Linked es (dropped id job s) (dropped-all_Agrees id job s es as')
      (dropped-Linked id job s a h)

Found-Agrees :
    (s : JobStore) (es : List (String × InvestigationJob))
    → All (Found s.jobs) es
    → All (Agrees s) es
Found-Agrees s [] h = tt
Found-Agrees s ((i, x) ∷ es) (h, hs) = (λ y e. ground arith, Found-Agrees s es hs)

terminal-All :
    (P : String × InvestigationJob → Type 0) (es : List (String × InvestigationJob))
    → All P es
    → All P (terminal es)
terminal-All P [] h = tt
terminal-All P ((i, x) ∷ es) (h, hs) = elim (Bool-cases (is_running x.status)) [
  | inl r ↦ rw r (terminal-All P es hs)
  | inr r ↦ rw r (h, terminal-All P es hs)
]

of_case-All :
    (P : String × InvestigationJob → Type 0) (c : String) (es : List (String × InvestigationJob))
    → All P es
    → All P (of_case c es)
unfolding of_case
of_case-All P c [] h = tt
of_case-All P c ((i, x) ∷ es) (h, hs) = elim (Bool-cases (x.case_id == c)) [
  | inl r ↦ rw r (h, of_case-All P c es hs)
  | inr r ↦ rw r (of_case-All P c es hs)
]

take-All :
    (P : String × InvestigationJob → Type 0) (n : ℕ) (es : List (String × InvestigationJob))
    → All P es
    → All P (take n es)
take-All P zero es h = tt
take-All P (suc n) [] h = tt
take-All P (suc n) (e ∷ es) (h, hs) = (h, take-All P n es hs)

pub prune-Linked : (s : JobStore) → Linked s → Linked (prune s)
unfolding prune
prune-Linked s h = elim (Bool-cases (leb (length s.jobs) 500)) [
  | inl few ↦ rw few h
  | inr many ↦ rw many (
      drop_all-Linked (take 100 (terminal s.jobs)) s
        (Found-Agrees s _
          (take-All _ 100 (terminal s.jobs) (terminal-All _ s.jobs (keys-Found s.jobs h.distinct))))
        h)
]

pub discard_case-Linked : (c : String) (s : JobStore) → Linked s → Linked (discard_case c s)
unfolding discard_case
discard_case-Linked c s h =
    drop_all-Linked (of_case c s.jobs) s
      (Found-Agrees s _ (of_case-All _ c s.jobs (keys-Found s.jobs h.distinct))) h

pub added-Linked :
    (id : String) (job : InvestigationJob) (s : JobStore)
    → lookup id s.jobs ≡ none
    → Linked s
    → Linked (added id job s)
added-Linked id job s fresh h = record {
  distinct = all_distinct-keys-put id job s.jobs h.distinct;
  tracked = λ run i e. elim (Bool-cases (job.run_id == run)) [
    | inl same ↦ (
      job,
      ground
          (arith, lookup-put job.run_id run id s.by_run, lookup-put id i job s.jobs, eq_iff id i),
      ground (arith, eq_iff job.run_id run),
    )
    | inr other ↦
        let old : lookup run s.by_run ≡ some i =
          ground (arith, lookup-put job.run_id run id s.by_run) in
        let (x, found, own) = h.tracked run i old in
        (x, ground (arith, lookup-put id i job s.jobs, eq_iff id i), own)
  ];
}

-- A job that stays of its run may change.
pub with_job-Linked :
    (id : String) (old new : InvestigationJob) (s : JobStore)
    → lookup id s.jobs ≡ some old
    → new.run_id ≡ old.run_id
    → Linked s
    → Linked (with_job id new s)
with_job-Linked id old new s found same h = record {
  distinct = all_distinct-keys-put id new s.jobs h.distinct;
  tracked = λ run i e.
      let (x, at, own) = h.tracked run i e in
      elim (Bool-cases (id == i)) [
        | inl here ↦ (new, ground (arith, lookup-put id i new s.jobs), ground (arith, eq_iff id i))
        | inr other ↦ (x, ground (arith, lookup-put id i new s.jobs), own)
      ];
}
