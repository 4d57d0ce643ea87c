-- ===== src/Planner.antt =====
-- src/goalrouter/planner.py: decomposition of an objective into work items.
pub mod Fields
pub mod Cycles
pub mod Validation
pub mod Accepted
pub mod Planning
pub mod Outcome
