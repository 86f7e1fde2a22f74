-- ===== src/Api.antt =====
-- src/amlguard/api: the parts of the web application.
pub mod Progress
pub mod Schemas
pub mod Http
pub mod Access
pub mod Forms
pub mod Routes
pub mod Pages
pub mod Requests
pub mod Denied
pub mod Idempotent
pub mod Returned
pub mod Completed
pub mod Home
mod Tests
pub mod Decisions
