-- ===== src/Tools/Repository/Tests.antt =====
-- The repository of the sample bank.
use amlguard_eu_ai_agent.Prelude.{◌≡◌, [], ◌∷◌, ok, some, refl, true, false, List}
use amlguard_eu_ai_agent.Prelude.Dict.{lookup, values, put}
use amlguard_eu_ai_agent.Domain.{CaseData, running}
use amlguard_eu_ai_agent.Governance.AuditChain.{verify_chain}
use amlguard_eu_ai_agent.Samples.{
  sample_digest, sample_bank, sample_case, sample_repository, empty_repository,
  sample_recommendation, sample_review,
}
use amlguard_eu_ai_agent.Tools.Repository.{new_repository, create_case}
use amlguard_eu_ai_agent.Tools.Repository.Soundness.{IsSound}
use amlguard_eu_ai_agent.Tools.Repository.Cases.{
  Operation, creating, recommending, reviewing, marking, auditing, assigning, perform_all,
  perform_all-new_repository-IsSound, verify_chain-perform_all, create_case_again,
}
use amlguard_eu_ai_agent.Tools.Repository.Growth.{Grows, perform_all-Grows}

abbrev calls : List Operation
calls =
    recommending "C1" sample_recommendation
    ∷ assigning "C1" "rob"
    ∷ reviewing sample_review
    ∷ marking "C1" running
    ∷ auditing "case_reviewed" "rob" "C1" []
    ∷ []

perform_all-new_repository-IsSound_example : IsSound sample_digest (
    perform_all sample_digest
      (creating "A1" "bank" "ivy" "C1" "R1" ∷ calls)
      (new_repository sample_bank))
perform_all-new_repository-IsSound_example =
    perform_all-new_repository-IsSound sample_digest (creating "A1" "bank" "ivy" "C1" "R1" ∷ calls)
      sample_bank

verify_chain-perform_all_example :
    verify_chain sample_digest
      (perform_all sample_digest calls (new_repository sample_bank)).audit_events
    ≡ []
verify_chain-perform_all_example = verify_chain-perform_all sample_digest calls sample_bank

created :
    create_case "A1" "bank" "ivy" "C1" "R1" empty_repository
    ≡ (ok (sample_case, true), sample_repository)
unfolding create_case values put
created = refl

create_case_again_example :
    create_case "A1" "bank" "ivy" "C2" "R2" sample_repository
    ≡ (ok (sample_case, false), sample_repository)
create_case_again_example =
    create_case_again "A1" "bank" "ivy" "C1" "R1" "C2" "R2" empty_repository sample_repository
      sample_case true created

stored : lookup "C1" sample_repository.cases ≡ some sample_case
unfolding lookup
stored = refl

perform_all-Grows_example :
    (c' : CaseData) × (lookup "C1" (perform_all sample_digest calls sample_repository).cases
      ≡ some c')
    × Grows sample_case c'
perform_all-Grows_example =
    perform_all-Grows sample_digest "C1" calls sample_repository sample_case stored refl
