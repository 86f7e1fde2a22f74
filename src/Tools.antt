-- ===== src/Tools.antt =====
-- src/amlguard/tools: the case repositories, and the case-scoped tools over it.
pub mod Repository
pub mod Records
pub mod Postgres
pub mod Service
