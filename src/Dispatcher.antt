-- ===== src/Dispatcher.antt =====
-- The dispatcher, apps/dispatcher/src.
pub mod Lanes
pub mod Leases
pub mod Dispatch
pub mod Cycles
pub mod Agents
pub mod Available
