-- ===== src/Experiments/Queue/Claims.antt =====
-- What `claim` hands out.
use amlguard_eu_ai_agent.Prelude.{
  ℕ, String, true, ◌≡◌, refl, List, [], ◌∷◌, some, ok, arith, inl, inr, Bool-cases, Option, ◌⊎◌,
  ◌↔◌, ◌∙◌, ◌≤◌, ◌+◌, sym, ap, Result,
}
use mathlib.Core.Path.{subst}
use amlguard_eu_ai_agent.Prelude.Dict.{Dict, values, is_some}
use amlguard_eu_ai_agent.Prelude.Lists.{any}
use amlguard_eu_ai_agent.Prelude.Members.{Mem, contains_iff}
use amlguard_eu_ai_agent.Prelude.Sets.{contains}
use amlguard_eu_ai_agent.Experiments.Models.{
  ExperimentJob, JobStatus, pending, leased, running, retry_wait, succeeded, failed, cancelled,
}
use amlguard_eu_ai_agent.Experiments.Queue.{
  Queue, claim, claim_jobs, claimed, is_ready, is_expired, is_waiting,
}

-- `e` is an entry of the dictionary.
abbrev pub Entry : Dict ExperimentJob → String × ExperimentJob → Type 0
Entry [] e = ⊥
Entry (x ∷ d) e = (x ≡ e) ⊎ Entry d e

module _ (worker_id : String) (lease_seconds now : ℕ) where
  -- The job waits, its time has come, and its experiment is not stopped.
  pub record IsDue (stopped : List String) (j : ExperimentJob) : Type 0 where
    pub waits : (j.status ≡ pending) ⊎ (j.status ≡ retry_wait)
    pub on_time : j.not_before ≤ now
    pub goes_on : ¬ Mem stopped j.experiment_id

  -- The job `j` is the job `old`, leased to the worker for its next attempt.
  pub record Leased (old j : ExperimentJob) : Type 0 where
    pub status : j.status ≡ leased
    pub owner : j.lease_owner ≡ some worker_id
    pub until : j.lease_expires_at ≡ some (now + lease_seconds)
    pub attempt : j.attempt_count ≡ old.attempt_count + 1
    pub attempts : j.max_attempts ≡ old.max_attempts
    pub job : j.job_id ≡ old.job_id
    pub experiment : j.experiment_id ≡ old.experiment_id
    pub session : j.session_key ≡ old.session_key
    pub configuration : j.configuration_id ≡ old.configuration_id
    pub scenario : j.scenario_id ≡ old.scenario_id
    pub repetition : j.repetition ≡ old.repetition
    pub not_before : j.not_before ≡ old.not_before
    pub cost : j.estimated_cost ≡ old.estimated_cost

  -- The job `j` was due in the queue `q`, and is stored as leased in the queue `q'`.
  pub record Handed (q q' : Queue) (j : ExperimentJob) : Type 0 where
    pub key : String
    pub old : ExperimentJob
    pub stored : Entry q.jobs (key, old)
    pub due : IsDue q.stopped old
    pub handed : Leased old j
    pub restored : Entry q'.jobs (key, j)

  is_waiting_iff : (s : JobStatus) → (is_waiting s ≡ true) ↔ ((s ≡ pending) ⊎ (s ≡ retry_wait))
  is_waiting_iff pending = (λ e. inl refl, λ e. refl)
  is_waiting_iff retry_wait = (λ e. inr refl, λ e. refl)
  is_waiting_iff leased =
      (λ e. absurd (cc e), λ e. elim e [ inl q ↦ absurd (cc q) | inr q ↦ absurd (cc q) ])
  is_waiting_iff running =
      (λ e. absurd (cc e), λ e. elim e [ inl q ↦ absurd (cc q) | inr q ↦ absurd (cc q) ])
  is_waiting_iff succeeded =
      (λ e. absurd (cc e), λ e. elim e [ inl q ↦ absurd (cc q) | inr q ↦ absurd (cc q) ])
  is_waiting_iff failed =
      (λ e. absurd (cc e), λ e. elim e [ inl q ↦ absurd (cc q) | inr q ↦ absurd (cc q) ])
  is_waiting_iff cancelled =
      (λ e. absurd (cc e), λ e. elim e [ inl q ↦ absurd (cc q) | inr q ↦ absurd (cc q) ])

  is_ready_iff :
      (stopped : List String) (j : ExperimentJob)
      → (is_ready worker_id lease_seconds now stopped j ≡ true) ↔ IsDue stopped j
  is_ready_iff stopped j = (
    λ h. record {
      waits = (is_waiting_iff j.status).0 (ground (arith, h));
      on_time = ground (arith, h);
      goes_on = λ m. ground (arith, h, (contains_iff stopped j.experiment_id).1 m);
    },
    λ d. elim (Bool-cases (contains stopped j.experiment_id)) [
      | inl halted ↦ absurd (d.goes_on ((contains_iff stopped j.experiment_id).0 halted))
      | inr running_on ↦ ground (arith, running_on, (is_waiting_iff j.status).1 d.waits, d.on_time)
    ],
  )

  any-Entry :
      (stopped : List String) (d : Dict ExperimentJob)
      → (any (is_ready worker_id lease_seconds now stopped) (values d) ≡ true)
        ↔ ((k : String) × (j : ExperimentJob) × Entry d (k, j) × IsDue stopped j)
  unfolding values
  any-Entry stopped [] = (λ e. absurd (cc e), λ m. absurd m.2)
  any-Entry stopped ((k, j) ∷ d) = (
    λ e. elim (Bool-cases (is_ready worker_id lease_seconds now stopped j)) [
      | inl here ↦ (k, j, inl refl, (is_ready_iff stopped j).0 here)
      | inr other ↦
          let (i, x, m, due) = (any-Entry stopped d).0 (ground (arith, other, e)) in
          (i, x, inr m, due)
    ],
    λ (i, x, m, due). elim m [
      | inl same ↦
          let job : j ≡ x = ap (λ (y : String × ExperimentJob). y.1) same in
          let here : is_ready worker_id lease_seconds now stopped j ≡ true =
            rw job ((is_ready_iff stopped x).1 due) in
          ground (arith, here)
      | inr k ↦ ground (arith, (any-Entry stopped d).1 (i, x, k, due))
    ],
  )

  is_some-claim_jobs :
      (stopped : List String) (d : Dict ExperimentJob)
      → is_some (claim_jobs worker_id lease_seconds now stopped d).0
        ≡ any (is_ready worker_id lease_seconds now stopped) (values d)
  unfolding claim_jobs values
  is_some-claim_jobs stopped [] = refl
  is_some-claim_jobs stopped ((k, j) ∷ d) = ground (arith, is_some-claim_jobs stopped d)

  -- A claim returns, and hands out a job exactly when the queue stores a job that waits, whose time
  -- has come, and whose experiment is not stopped.
  pub claim-ready :
      (q : Queue)
      → (c : Option ExperimentJob) × ((claim worker_id lease_seconds now q).0 ≡ ok c)
        × ((is_some c ≡ true)
            ↔ ((k : String) × (j : ExperimentJob) × Entry q.jobs (k, j) × IsDue q.stopped j))
  unfolding claim
  claim-ready q =
      let (only, whenever) = any-Entry q.stopped q.jobs in
      let counted = is_some-claim_jobs q.stopped q.jobs in
      (
        (claim_jobs worker_id lease_seconds now q.stopped q.jobs).0,
        refl,
        (λ e. only (sym counted ∙ e), λ m. counted ∙ whenever m),
      )

  abbrev HandedBy : List String → Dict ExperimentJob → Dict ExperimentJob → ExperimentJob → Type 0
  HandedBy stopped d d' j =
      (k : String) × (old : ExperimentJob) × Entry d (k, old)
      × (is_ready worker_id lease_seconds now stopped old ≡ true)
      × (j ≡ claimed worker_id lease_seconds now old)
      × Entry d' (k, j)

  claim_jobs-HandedBy :
      (stopped : List String) (d : Dict ExperimentJob) (j : ExperimentJob)
      → (claim_jobs worker_id lease_seconds now stopped d).0 ≡ some j
      → HandedBy stopped d (claim_jobs worker_id lease_seconds now stopped d).1 j
  unfolding claim_jobs
  claim_jobs-HandedBy stopped [] j e = absurd cc
  claim_jobs-HandedBy stopped ((k, x) ∷ d) j e =
      elim (Bool-cases (is_ready worker_id lease_seconds now stopped x)) [
        | inl now_ready ↦
            let same : claimed worker_id lease_seconds now x ≡ j = ground (arith, now_ready, e) in
            (
              k,
              x,
              inl refl,
              now_ready,
              sym same,
              rw now_ready (inl (ap (λ (y : ExperimentJob). (k, y)) same)),
            )
        | inr not_ready ↦
            let (i, old, stored, ready, updated, restored) =
              claim_jobs-HandedBy stopped d j (ground (arith, not_ready, e)) in
            (
              i,
              old,
              inr stored,
              ready,
              updated,
              rw not_ready (elim (Bool-cases (is_expired worker_id lease_seconds now stopped x)) [
                | inl expired ↦ rw expired (inr restored)
                | inr kept ↦ rw kept (inr restored)
              ]),
            )
      ]

  -- A job that a claim hands out was stored, waited, its time had come, and its experiment is not
  -- stopped; it is handed out leased to the worker until the lease ends, with one attempt more and
  -- otherwise as it was, and so it is stored.
  pub claim-Handed :
      (q q' : Queue) (j : ExperimentJob)
      → claim worker_id lease_seconds now q ≡ (ok (some j), q')
      → Handed q q' j
  unfolding claim
  claim-Handed q q' j e =
      let (k, old, stored, ready, updated, restored) =
        claim_jobs-HandedBy q.stopped q.jobs j (ground (arith, e)) in
      record {
        key = k;
        old = old;
        stored = stored;
        due = (is_ready_iff q.stopped old).0 ready;
        handed = rw updated (record {
          status = refl;
          owner = refl;
          until = refl;
          attempt = refl;
          attempts = refl;
          job = refl;
          experiment = refl;
          session = refl;
          configuration = refl;
          scenario = refl;
          repetition = refl;
          not_before = refl;
          cost = refl;
        });
        restored =
            subst (λ d. Entry d (k, j))
              (ap (λ (y : Result (Option ExperimentJob) × Queue). y.1.jobs) e) restored;
      }
