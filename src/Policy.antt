-- ===== src/Policy.antt =====
-- src/amlguard/policy: the corpus records and the retrieval of applicable policies.
pub mod Models
pub mod Words
pub mod Retrieval
pub mod Applicability
