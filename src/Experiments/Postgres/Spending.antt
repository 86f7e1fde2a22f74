-- ===== src/Experiments/Postgres/Spending.antt =====
-- Every sequence of calls of `PostgresExperimentQueue` of src/amlguard/experiments/queue.py keeps the
-- accounts.
use amlguard_eu_ai_agent.Prelude.{
  ◌*◌, ◌-◌, true, [], ◌∷◌, if◌then◌else◌, ℕ, String, Bool, ◌≡◌, refl, some, ◌+◌, ◌≤◌, ◌=ℕ◌, ltb,
  arith, Bool-cases, Option-cases, inl, inr, subst,
}
use amlguard_eu_ai_agent.Prelude.Dict.{Dict, lookup}
use amlguard_eu_ai_agent.Prelude.Entries.{keys-Found, Found}
use amlguard_eu_ai_agent.Prelude.Lists.{All}
use amlguard_eu_ai_agent.Domain.{Json}
use amlguard_eu_ai_agent.Experiments.Models.{ExperimentJob}
use amlguard_eu_ai_agent.Experiments.Queue.{is_owner}
use amlguard_eu_ai_agent.Experiments.Postgres.{
  rounded, JobRow, Tables, candidate, is_candidate, comes_first, earlier, claim, heartbeat,
  reserve_cost, complete, fail, stop, resume, leased_to, beaten, failed_row, ◌∷◌,
}
use amlguard_eu_ai_agent.Experiments.Postgres.Accounted.{
  Accounted, job_changed, manifest_changed, both_changed,
}

-- A call of a worker or of the operator. A new experiment is scheduled before.
pub data Call : Type 0 where
  claiming : (now : ℕ) (worker_id : String) (lease_seconds : ℕ) → Call
  beating : (now : ℕ) (job_id worker_id : String) (lease_seconds : ℕ) → Call
  reserving : ExperimentJob → ℕ → Call
  completing : ExperimentJob → Json → ℕ → Call
  failing : (now : ℕ) → ExperimentJob → Json → Bool → Call
  stopping resuming : String → Call

-- The tables after the call, whether it returned or raised.
unfoldable pub perform : Call → Tables → Tables
perform (claiming n w l) t = (claim n w l t).1
perform (beating n j w l) t = (heartbeat n j w l t).1
perform (reserving j a) t = (reserve_cost j a t).1
perform (completing j r c) t = (complete j r c t).1
perform (failing n j e b) t = (fail n j e b t).1
perform (stopping i) t = (stop i t).1
perform (resuming i) t = (resume i t).1

-- A job that a worker holds is about the experiment that its row is about.
abbrev pub Fits : ExperimentJob → Tables → Type 0
Fits job t =
    (r : JobRow) → lookup job.job_id t.jobs ≡ some r → r.job.experiment_id ≡ job.experiment_id

abbrev pub IsProper : Call → Tables → Type 0
IsProper (reserving j a) t = Fits j t
IsProper (completing j r c) t = Fits j t
IsProper (failing n j e b) t = Fits j t
IsProper _ t = Unit

-- The tables that proper calls lead to.
pub data Reached (t0 : Tables) : Tables → Type 0 where
  started : Reached t0 t0
  called : (c : Call) {t : Tables} → IsProper c t → Reached t0 t → Reached t0 (perform c t)

candidate-Found :
    (now : ℕ) (t : Tables) (whole d : Dict JobRow) (p : String × JobRow)
    → All (Found whole) d
    → candidate now t d ≡ some p
    → Found whole p
unfolding candidate
candidate-Found now t whole [] p f h = absurd (cc h)
candidate-Found now t whole (q ∷ qs) p (f, fs) h = elim (Bool-cases (is_candidate now t q.1)) [
  | inr out ↦ candidate-Found now t whole qs p fs (
      subst
        (λ b.
          (if b then some (earlier now q (candidate now t qs)) else candidate now t qs) ≡ some p)
        out h)
  | inl fit ↦
      let h' : some (earlier now q (candidate now t qs)) ≡ some p =
        subst
          (λ b.
            (if b then some (earlier now q (candidate now t qs)) else candidate now t qs) ≡ some p)
          fit h in
      let same : earlier now q (candidate now t qs) ≡ p = cc h' in
      subst (Found whole) same (elim (Option-cases (candidate now t qs)) [
        | inl e ↦ rw e f
        | inr (r, e) ↦ elim (Bool-cases (comes_first now r q)) [
          | inl less ↦ rw e (rw less (candidate-Found now t whole qs r fs e))
          | inr more ↦ rw e (rw more f)
        ]
      ])
]

-- Rounding to the account does not pass a bound that the account can hold.
rounded-le : (n c : ℕ) → n ≤ 100 * c → rounded n ≤ c
rounded-le n c h = omega arith

-- What a reservation adds, and what its end takes off.
rounded-add : (r x : ℕ) → r + rounded x ≤ rounded (100 * r + x)
rounded-add r x = omega arith

rounded-sub : (r x : ℕ) → r ≤ rounded (100 * r - x) + rounded x
rounded-sub r x = omega arith

opened : (old r x : ℕ) → (old =ℕ 0) ≡ true → r + rounded x ≤ rounded (100 * r + x) + rounded old
opened old r x h = omega (arith, rounded-add r x)

closed : (r x : ℕ) → r + rounded 0 ≤ rounded (100 * r - x) + rounded x
closed r x = omega (arith, rounded-sub r x)

module _ (t : Tables) (a : Accounted t) where
  claim-Accounted : (n : ℕ) (w : String) (l : ℕ) → Accounted (claim n w l t).1
  unfolding claim
  claim-Accounted n w l = elim (Option-cases (candidate n t t.jobs)) [
    | inl e ↦ rw e a
    | inr ((k, r), e) ↦
        let found = candidate-Found n t t.jobs t.jobs (k, r) (keys-Found t.jobs a.distinct) e in
        rw e (job_changed t _ a k r (leased_to n w l r) found refl refl refl refl)
  ]

  heartbeat-Accounted : (n : ℕ) (j w : String) (l : ℕ) → Accounted (heartbeat n j w l t).1
  unfolding heartbeat
  heartbeat-Accounted n j w l = elim (Option-cases (lookup j t.jobs)) [
    | inl e ↦ rw e a
    | inr (r, e) ↦ elim (Bool-cases (is_owner w r.job.lease_owner)) [
      | inl owns ↦ rw e (rw owns (job_changed t _ a j r (beaten n l r) e refl refl refl refl))
      | inr other ↦ rw e (rw other a)
    ]
  ]

  stop-Accounted : (i : String) → Accounted (stop i t).1
  unfolding stop
  stop-Accounted i = elim (Option-cases (lookup i t.manifests)) [
    | inl e ↦ rw e a
    | inr (m, e) ↦ rw e (manifest_changed t _ a i m _ e refl refl refl refl refl)
  ]

  resume-Accounted : (i : String) → Accounted (resume i t).1
  unfolding resume
  resume-Accounted i = elim (Option-cases (lookup i t.manifests)) [
    | inl e ↦ rw e a
    | inr (m, e) ↦ rw e (manifest_changed t _ a i m _ e refl refl refl refl refl)
  ]

  reserve_cost-Accounted : (j : ExperimentJob) (x : ℕ) → Fits j t → Accounted (reserve_cost j x t).1
  unfolding reserve_cost
  reserve_cost-Accounted j x fits = elim (Option-cases (lookup j.experiment_id t.manifests)) [
    | inl e ↦ rw e a
    | inr (m, e) ↦ elim (Option-cases (lookup j.job_id t.jobs)) [
      | inl f ↦ rw (e, f) a
      | inr (r, f) ↦ elim (Bool-cases (r.reserved =ℕ 0)) [
        | inr held ↦ rw (e, f) (rw held a)
        | inl free ↦ elim (Bool-cases m.stop_requested) [
          | inl stopped ↦ rw (e, f) (rw (free, stopped) a)
          | inr going ↦
              elim (Bool-cases
                (ltb (100 * m.cost_ceiling) (100 * m.cost_spent + 100 * m.cost_reserved + x))) [
                  | inl over ↦ rw (e, f) (rw (free, going, over) a)
                  | inr under ↦
                      rw (e, f)
                        (rw (free, going, under)
                          (both_changed t _ a j.experiment_id j.job_id m _ r _ (fits r f) e f
                            (a.within j.experiment_id m e) refl
                            (opened r.reserved m.cost_reserved x free) refl refl))
                ]
        ]
      ]
    ]
  ]

  complete-Accounted :
      (j : ExperimentJob) (v : Json) (x : ℕ) → Fits j t → Accounted (complete j v x t).1
  unfolding complete
  complete-Accounted j v x fits = elim (Option-cases (lookup j.experiment_id t.manifests)) [
    | inl e ↦ rw e a
    | inr (m, e) ↦ elim (Bool-cases m.stop_requested) [
      | inl stopped ↦ rw e (rw stopped a)
      | inr going ↦ elim (Option-cases (lookup j.job_id t.jobs)) [
        | inl f ↦ rw e (rw going (rw f a))
        | inr (r, f) ↦ elim (Bool-cases (ltb (100 * m.cost_ceiling) (100 * m.cost_spent + x))) [
          | inl over ↦ rw e (rw going (rw f (rw over a)))
          | inr under ↦ rw e (
              rw going (
                rw f (
                  rw under (
                    both_changed t _ a j.experiment_id j.job_id m _ r _ (fits r f) e f
                      (rounded-le (100 * m.cost_spent + x) m.cost_ceiling (ground (arith, under)))
                      refl (closed m.cost_reserved r.reserved) refl refl))))
        ]
      ]
    ]
  ]

  fail-Accounted :
      (n : ℕ) (j : ExperimentJob) (v : Json) (b : Bool) → Fits j t → Accounted (fail n j v b t).1
  unfolding fail
  fail-Accounted n j v b fits = elim (Option-cases (lookup j.experiment_id t.manifests)) [
    | inl e ↦ rw e a
    | inr (m, e) ↦ elim (Option-cases (lookup j.job_id t.jobs)) [
      | inl f ↦ rw (e, f) a
      | inr (r, f) ↦
          rw (e, f)
            (both_changed t _ a j.experiment_id j.job_id m _ r (failed_row n j v b r) (fits r f) e f
              (a.within j.experiment_id m e) refl (closed m.cost_reserved r.reserved) refl refl)
    ]
  ]

perform-Accounted : (c : Call) (t : Tables) → IsProper c t → Accounted t → Accounted (perform c t)
unfolding perform
perform-Accounted (claiming n w l) t p a = claim-Accounted t a n w l
perform-Accounted (beating n j w l) t p a = heartbeat-Accounted t a n j w l
perform-Accounted (reserving j x) t p a = reserve_cost-Accounted t a j x p
perform-Accounted (completing j v x) t p a = complete-Accounted t a j v x p
perform-Accounted (failing n j v b) t p a = fail-Accounted t a n j v b p
perform-Accounted (stopping i) t p a = stop-Accounted t a i
perform-Accounted (resuming i) t p a = resume-Accounted t a i

-- Whatever claims, heartbeats, reservations, completions, failures, stops and resumes follow, each
-- returning or raising, where a worker's job is about the experiment of its row: no experiment spends
-- more than its cost ceiling, as its account of four decimals keeps both, and the cost reserved for
-- an experiment is at least what its jobs have reserved together, each reservation rounded to four
-- decimals, as long as both hold at the start and job identifiers are distinct.
pub Reached-Accounted : (t0 t : Tables) → Accounted t0 → Reached t0 t → Accounted t
Reached-Accounted t0 _ a started = a
Reached-Accounted t0 _ a (called c {t} p r) = perform-Accounted c t p (Reached-Accounted t0 t a r)
