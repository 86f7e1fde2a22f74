-- ===== src/Tools/Records.antt =====
-- The rows of src/amlguard/db/models.py that the operations on cases read and write. A payload is a
-- value of the JSON column, of a type `P`.
use amlguard_eu_ai_agent.Prelude.{ℕ, String, Option, List}
use amlguard_eu_ai_agent.Prelude.Dict.{Dict}
use amlguard_eu_ai_agent.Domain.{CaseStatus, ReviewAction}
use amlguard_eu_ai_agent.Governance.AuditChain.{AuditEvent}

pub record AlertRow : Type 0 where
  pub alert_ref : String
  pub customer_id : String

-- A row of `CaseRecord`, but for its `id`: the key that the row is stored under.
pub record CaseRow : Type 0 where
  pub case_ref : String
  pub alert_id : String
  pub customer_id : String
  pub tenant_id : String
  pub assigned_investigator_id : String
  pub status : CaseStatus
  pub assigned_reviewer_id : Option String
  pub updated_at : ℕ

pub record AuthorizedResourceRow : Type 0 where
  pub case_id : String
  pub resource_type : String
  pub resource_ref : String

pub record RecommendationRow (P : Type 0) : Type 0 where
  pub case_id : String
  pub version : ℕ
  pub payload : P
  pub content_hash : String

pub record ReviewRow (P : Type 0) : Type 0 where
  pub id : String
  pub case_id : String
  pub recommendation_version : ℕ
  pub action : ReviewAction
  pub reviewer_id : String
  pub rationale : String
  pub edited_payload : Option P
  pub reviewed_at : ℕ

-- The tables that the operations on cases read and write; `customers` gives the references
-- of the rows.
pub record Store (P : Type 0) : Type 0 where
  pub alerts : Dict AlertRow
  pub customers : Dict String
  pub cases : Dict CaseRow
  pub authorized_resources : List AuthorizedResourceRow
  pub recommendations : List (RecommendationRow P)
  pub human_reviews : List (ReviewRow P)
  pub events : List AuditEvent
