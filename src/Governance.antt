-- ===== src/Governance.antt =====
-- src/amlguard/governance: the release decision and the audit chain.
pub mod HardBlocks
pub mod Released
pub mod AuditChain
mod Tests
