-- ===== src/Api/Progress/Tests.antt =====
-- The job store with one job, at a stage of it.
use amlguard_eu_ai_agent.Prelude.{◌≡◌, ok, refl}
use amlguard_eu_ai_agent.Prelude.Dict.{lookup}
use amlguard_eu_ai_agent.Api.Progress.{JobStore, new_store, create, stage_hook}
use amlguard_eu_ai_agent.Api.Progress.Reached.{Reached, started, created, stage_hook_returns}

abbrev one_job : JobStore
one_job = (create "J1" "C1" "R1" "ivy" "bank" new_store).1

reached : Reached one_job
unfolding lookup
reached = created "J1" "C1" "R1" "ivy" "bank" refl started

stage_hook_returns_example : (stage_hook "R1" "draft_recommendation" "started" one_job).0 ≡ ok tt
stage_hook_returns_example =
    stage_hook_returns one_job "R1" "draft_recommendation" "started" reached
