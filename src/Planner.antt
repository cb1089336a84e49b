-- ===== src/Planner.antt =====
-- The planner, apps/planner/src.
pub mod Dependencies
pub mod Duplicates
