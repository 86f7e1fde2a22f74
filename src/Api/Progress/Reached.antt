-- ===== src/Api/Progress/Reached.antt =====
-- Every sequence of calls of the job store.
use amlguard_eu_ai_agent.Prelude.{String, ◌≡◌, refl, none, ok, arith, Option-cases, inl, inr}
use amlguard_eu_ai_agent.Prelude.Dict.{lookup, keys}
use amlguard_eu_ai_agent.Api.Progress.{
  JobStore, new_store, new_job, create, discard_case, stage_hook, complete, fail, stage_of_job, get,
}
use amlguard_eu_ai_agent.Api.Progress.Linked.{
  Linked, prune-Linked, discard_case-Linked, added-Linked, with_job-Linked,
}

-- The stores that calls lead to; `create` draws an identifier that no stored job has.
pub data Reached : JobStore → Type 0 where
  started : Reached new_store
  created :
      (id case_id run_id actor tenant : String) {s : JobStore}
      → lookup id s.jobs ≡ none
      → Reached s
      → Reached (create id case_id run_id actor tenant s).1
  discarded : (case_id : String) {s : JobStore} → Reached s → Reached (discard_case case_id s)
  staged :
      (run_id stage event : String) {s : JobStore}
      → Reached s
      → Reached (stage_hook run_id stage event s).1
  finished : (id : String) {s : JobStore} → Reached s → Reached (complete id s).1
  broken : (id : String) {s : JobStore} → Reached s → Reached (fail id s).1

stage_hook-Linked :
    (run_id stage event : String) (s : JobStore)
    → Linked s
    → ((stage_hook run_id stage event s).0 ≡ ok tt) × Linked (stage_hook run_id stage event s).1
unfolding stage_hook stage_of_job get
stage_hook-Linked run_id stage event s h = elim (Option-cases (lookup run_id s.by_run)) [
  | inl e ↦ rw e (refl, h)
  | inr (id, e) ↦
      let (job, found, own) = h.tracked run_id id e in
      rw e (rw found (refl, with_job-Linked id job _ s found refl h))
]

complete-Linked : (id : String) (s : JobStore) → Linked s → Linked (complete id s).1
unfolding complete get
complete-Linked id s h = elim (Option-cases (lookup id s.jobs)) [
  | inl e ↦ rw e h
  | inr (job, e) ↦ rw e (with_job-Linked id job _ s e refl h)
]

fail-Linked : (id : String) (s : JobStore) → Linked s → Linked (fail id s).1
unfolding fail get
fail-Linked id s h = elim (Option-cases (lookup id s.jobs)) [
  | inl e ↦ rw e h
  | inr (job, e) ↦ rw e (with_job-Linked id job _ s e refl h)
]

new_store-Linked : Linked new_store
unfolding lookup keys
new_store-Linked = record { distinct = refl; tracked = λ run id e. absurd (ground arith) }

-- In every store that calls lead to, a run that is tracked leads to a stored job of that run.
pub Reached-Linked : (s : JobStore) → Reached s → Linked s
unfolding create
Reached-Linked _ started = new_store-Linked
Reached-Linked _ (created id case_id run_id actor tenant {s} fresh r) =
    prune-Linked _
      (added-Linked id (new_job id case_id run_id actor tenant) s fresh (Reached-Linked s r))
Reached-Linked _ (discarded case_id {s} r) = discard_case-Linked case_id s (Reached-Linked s r)
Reached-Linked _ (staged run_id stage event {s} r) =
    (stage_hook-Linked run_id stage event s (Reached-Linked s r)).1
Reached-Linked _ (finished id {s} r) = complete-Linked id s (Reached-Linked s r)
Reached-Linked _ (broken id {s} r) = fail-Linked id s (Reached-Linked s r)

-- Whatever calls came before, the progress hook returns at every event of every run: it never looks
-- up a job that was pruned or discarded.
pub stage_hook_returns :
    (s : JobStore) (run_id stage event : String)
    → Reached s
    → (stage_hook run_id stage event s).0 ≡ ok tt
stage_hook_returns s run_id stage event r =
    (stage_hook-Linked run_id stage event s (Reached-Linked s r)).0
