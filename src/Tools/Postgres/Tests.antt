-- ===== src/Tools/Postgres/Tests.antt =====
-- A store before and after its one case is created, which has no recommendation yet.
use amlguard_eu_ai_agent.Prelude.{
  List, err, external_failure, ◌⊎◌, ◌==◌, String, ◌≡◌, refl, none, some, [], ◌∷◌, ok, true, false,
}
use amlguard_eu_ai_agent.Prelude.Dict.{lookup, put, values}
use amlguard_eu_ai_agent.Domain.{CaseData, Recommendation, open_case, validate_recommendation}
use amlguard_eu_ai_agent.Samples.{sample_recommendation, sample_digest, sample_repository}
use amlguard_eu_ai_agent.Tools.Records.{CaseRow, Store}
use amlguard_eu_ai_agent.Tools.Postgres.{
  get_case, latest, sort_reviews, reviews, save_recommendation, as_case,
}
use amlguard_eu_ai_agent.Prelude.Lists.{any}
use amlguard_eu_ai_agent.Governance.AuditChain.{AuditEvent, genesis_hash, IsChained, verify_chain}
use amlguard_eu_ai_agent.Tools.Repository.{next_event, audit}
use amlguard_eu_ai_agent.Tools.Repository.Chain.{next_event-IsChained}
use amlguard_eu_ai_agent.Tools.Postgres.Audited.{audit-verify_chain}
use amlguard_eu_ai_agent.Tools.Postgres.Creation as Postgres
use amlguard_eu_ai_agent.Tools.Postgres.Creation.{create_case}
use amlguard_eu_ai_agent.Tools.Postgres.Saved.{save_recommendation-get_case}

abbrev dumped : Recommendation → Recommendation
dumped x = x

abbrev hashed : Recommendation → String
hashed x = x.summary

abbrev one_row : CaseRow
one_row = record {
  case_ref = "CASE-C1";
  alert_id = "a1";
  customer_id = "c1";
  tenant_id = "bank";
  assigned_investigator_id = "ivy";
  status = open_case;
  assigned_reviewer_id = none;
  updated_at = 5;
}

abbrev empty_store : Store Recommendation
empty_store = record {
  alerts = ("a1", record { alert_ref = "A1"; customer_id = "c1" }) ∷ [];
  customers = ("c1", "CUST-1") ∷ [];
  cases = [];
  authorized_resources = [];
  recommendations = [];
  human_reviews = [];
  events = [];
}

abbrev one_case : Store Recommendation
one_case = record empty_store { cases = ("C1", one_row) ∷ [] }

abbrev read_case : CaseData
read_case = as_case validate_recommendation "C1" one_row "A1" "CUST-1" none 0 []

created :
    create_case validate_recommendation (λ id. "CASE-C1") 5 "A1" "bank" "ivy" "C1" empty_store
    ≡ (ok (read_case, true), one_case)
unfolding create_case lookup put values latest sort_reviews reviews
created = refl

created_again :
    create_case validate_recommendation (λ id. "CASE-C2") 9 "A1" "bank" "ivy" "C2" one_case
    ≡ (ok (read_case, false), one_case)
unfolding create_case lookup put values latest sort_reviews reviews
created_again = refl

read : (get_case validate_recommendation "C1" one_case).0 ≡ ok read_case
unfolding get_case lookup latest sort_reviews reviews
read = refl

valid : validate_recommendation sample_recommendation ≡ ok sample_recommendation
unfolding validate_recommendation
valid = refl

save_recommendation-get_case_example :
    let (saved, t') = save_recommendation dumped hashed "C1" sample_recommendation one_case in
    (saved ≡ ok 1)
    × ((get_case validate_recommendation "C1" t').0
        ≡ ok (record read_case {
          recommendation = some sample_recommendation;
          recommendation_version = 1;
        }))
    × ((get_case validate_recommendation "C2" t').0
        ≡ (get_case validate_recommendation "C2" one_case).0)
save_recommendation-get_case_example =
    save_recommendation-get_case validate_recommendation dumped hashed "C1" sample_recommendation
      one_case read_case "C2" valid read refl

abbrev first_events : List AuditEvent
first_events = next_event sample_digest "case_created" "ivy" "C1" [] [] ∷ []

audit-verify_chain_example :
    let (result, t') =
      Postgres.audit sample_digest "case_reviewed" "rob" "C1" []
        (record one_case { events = first_events }) in
    let taken =
      any
        (λ f.
          f.event_hash
          == (next_event sample_digest "case_reviewed" "rob" "C1" [] first_events).event_hash)
        first_events in
    ((taken ≡ false)
      × (result ≡ ok tt)
      × (t'.events
          ≡ (audit sample_digest "case_reviewed" "rob" "C1" []
              (record sample_repository { audit_events = first_events })).1.audit_events)
      × IsChained sample_digest 1 genesis_hash t'.events
      × (verify_chain sample_digest t'.events ≡ []))
    ⊎ ((taken ≡ true)
        × (result ≡ err external_failure)
        × (t' ≡ record one_case { events = first_events }))
audit-verify_chain_example =
    audit-verify_chain sample_digest "case_reviewed" "rob" "C1" []
      (record one_case { events = first_events })
      (record sample_repository { audit_events = first_events }) refl
      (next_event-IsChained sample_digest "case_created" "ivy" "C1" [] [] tt)
