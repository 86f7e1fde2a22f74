-- ===== src/Experiments.antt =====
-- src/amlguard/experiments: the queue of experiment jobs, with the models of domain/experiments.py.
pub mod Models
pub mod Queue
pub mod Postgres
