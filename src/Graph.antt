-- ===== src/Graph.antt =====
-- src/amlguard/graph: the investigation graph of builder.py with its state (state.py).
pub mod State
pub mod Nodes
pub mod Controls
pub mod Flow
pub mod Sync
pub mod Stages
pub mod Cleared
pub mod Named
pub mod Passed
pub mod Waiting
pub mod Outcomes
pub mod Decided
pub mod Runs
pub mod Reached
mod Tests
pub mod Engine
pub mod Selection
