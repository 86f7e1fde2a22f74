-- ===== src/Simulation.antt =====
-- src/amlguard/simulation: the synthetic bank that cases are investigated on.
pub mod Models
pub mod AlertRules
