-- ===== src/Experiments/Queue/Budget.antt =====
-- No sequence of calls spends more than the cost ceiling of an experiment.
use amlguard_eu_ai_agent.Prelude.{
  ℕ, String, Bool, false, ◌≡◌, refl, List, [], ◌∷◌, some, ◌≤◌, arith, inl, inr, Option-cases,
  Bool-cases, eq_iff, ltb, ◌+◌, ◌==◌,
}
use amlguard_eu_ai_agent.Prelude.Dict.{lookup, put, remove, lookup-put}
use amlguard_eu_ai_agent.Domain.{Json}
use amlguard_eu_ai_agent.Experiments.Models.{ExperimentManifest, ExperimentJob}
use amlguard_eu_ai_agent.Experiments.Queue.{
  Queue, claim, heartbeat, reserve_cost, complete, fail, stop, resume, record_result,
  amount_or_zero,
}

-- A call of a worker or of the operator. A new experiment is scheduled before.
pub data Operation : Type 0 where
  claiming : (worker_id : String) (lease_seconds now : ℕ) → Operation
  beating : (job_id worker_id : String) (lease_seconds now : ℕ) → Operation
  reserving : ExperimentJob → ℕ → Operation
  completing : ExperimentJob → Json → ℕ → Operation
  failing : ℕ → ExperimentJob → Bool → Operation
  stopping resuming : String → Operation

-- The queue after the call, whether it returned or raised.
unfoldable pub perform : Operation → Queue → Queue
perform (claiming w l n) q = (claim w l n q).1
perform (beating j w l n) q = (heartbeat j w l n q).1
perform (reserving j a) q = (reserve_cost j a q).1
perform (completing j r c) q = (complete j r c q).1
perform (failing n j b) q = (fail n j b q).1
perform (stopping e) q = (stop e q).1
perform (resuming e) q = (resume e q).1

unfoldable pub perform_all : List Operation → Queue → Queue
unfolding perform
perform_all [] q = q
perform_all (o ∷ os) q = perform_all os (perform o q)

-- What was spent for an experiment is within the ceiling of its manifest.
pub record IsWithin (q : Queue) : Type 0 where
  pub within :
      (id : String) (m : ExperimentManifest) (c : ℕ)
      → lookup id q.manifests ≡ some m
      → lookup id q.costs ≡ some c
      → c ≤ m.cost_ceiling

IsWithin-same :
    (q q' : Queue) → q'.costs ≡ q.costs → q'.manifests ≡ q.manifests → IsWithin q → IsWithin q'
IsWithin-same q q' costs manifests h = record {
  within = λ id m c em ec. h.within id m c (rw⁻¹ manifests em) (rw⁻¹ costs ec);
}

heartbeat-IsWithin :
    (j w : String) (l n : ℕ) (q : Queue) → IsWithin q → IsWithin (heartbeat j w l n q).1
unfolding heartbeat
heartbeat-IsWithin j w l n q h = IsWithin-same q _ (ground arith) (ground arith) h

reserve_cost-IsWithin :
    (j : ExperimentJob) (a : ℕ) (q : Queue) → IsWithin q → IsWithin (reserve_cost j a q).1
unfolding reserve_cost stop
reserve_cost-IsWithin j a q h = IsWithin-same q _ (ground arith) (ground arith) h

fail-IsWithin :
    (n : ℕ) (j : ExperimentJob) (b : Bool) (q : Queue) → IsWithin q → IsWithin (fail n j b q).1
unfolding fail
fail-IsWithin n j b q h = IsWithin-same q _ (ground arith) (ground arith) h

-- `record_result` sets the cost of the experiment, whether it raises or not.
record_result_costs :
    (j : ExperimentJob) (r : Json) (total : ℕ) (q : Queue)
    → ((record_result j r total q).1.costs ≡ put j.experiment_id total q.costs)
      × ((record_result j r total q).1.manifests ≡ q.manifests)
unfolding record_result
record_result_costs j r total q = (ground arith, ground arith)

-- An amount within the ceiling becomes the cost of an experiment.
spent-IsWithin :
    (q q' : Queue) (id : String) (m : ExperimentManifest) (total : ℕ)
    → lookup id q.manifests ≡ some m
    → ltb m.cost_ceiling total ≡ false
    → q'.costs ≡ put id total q.costs
    → q'.manifests ≡ q.manifests
    → IsWithin q
    → IsWithin q'
spent-IsWithin q q' id m total e fits costs manifests h = record {
  within = λ j n c em ec.
      let em' : lookup j q.manifests ≡ some n = rw⁻¹ manifests em in
      let ec' : lookup j (put id total q.costs) ≡ some c = rw⁻¹ costs ec in
      elim (Bool-cases (id == j)) [
        | inl here ↦
            let same : id ≡ j = (eq_iff id j).0 here in
            ground (arith, e, fits, lookup-put id j total q.costs, em', ec', same)
        | inr other ↦ h.within j n c em' (ground (arith, other, lookup-put id j total q.costs, ec'))
      ];
}

complete-IsWithin :
    (j : ExperimentJob) (r : Json) (c : ℕ) (q : Queue) → IsWithin q → IsWithin (complete j r c q).1
unfolding complete stop
complete-IsWithin j r c q h = elim (Option-cases (lookup j.experiment_id q.manifests)) [
  | inl e ↦ rw e h
  | inr (m, e) ↦
      let total = amount_or_zero (lookup j.experiment_id q.costs) + c in
      elim (Bool-cases (ltb m.cost_ceiling total)) [
        | inl over ↦ IsWithin-same q _ (rw (e, over) refl) (rw (e, over) refl) h
        | inr fits ↦
            spent-IsWithin q _ j.experiment_id m total e fits
              (rw (e, fits)
                (record_result_costs j r total
                  (record q { reservations = remove j.session_key q.reservations })).0)
              (rw (e, fits)
                (record_result_costs j r total
                  (record q { reservations = remove j.session_key q.reservations })).1)
              h
      ]
]

claim-IsWithin : (w : String) (l n : ℕ) (q : Queue) → IsWithin q → IsWithin (claim w l n q).1
unfolding claim
claim-IsWithin w l n q h = IsWithin-same q _ refl refl h

perform-IsWithin : (o : Operation) (q : Queue) → IsWithin q → IsWithin (perform o q)
unfolding perform stop resume
perform-IsWithin (claiming w l n) q h = claim-IsWithin w l n q h
perform-IsWithin (beating j w l n) q h = heartbeat-IsWithin j w l n q h
perform-IsWithin (reserving j a) q h = reserve_cost-IsWithin j a q h
perform-IsWithin (completing j r c) q h = complete-IsWithin j r c q h
perform-IsWithin (failing n j b) q h = fail-IsWithin n j b q h
perform-IsWithin (stopping e) q h = IsWithin-same q _ refl refl h
perform-IsWithin (resuming e) q h = IsWithin-same q _ refl refl h

-- From a queue in which every experiment has spent at most the cost ceiling of its manifest, no
-- sequence of claims, heartbeats, reservations, completions, failures, stops and resumes, whether
-- they return or raise, spends more than the ceiling.
pub perform_all-IsWithin :
    (os : List Operation) (q : Queue) → IsWithin q → IsWithin (perform_all os q)
unfolding perform_all
perform_all-IsWithin [] q h = h
perform_all-IsWithin (o ∷ os) q h = perform_all-IsWithin os (perform o q) (perform-IsWithin o q h)
