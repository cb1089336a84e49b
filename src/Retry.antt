-- ===== src/Retry.antt =====
-- What the cycle manager does with failed and blocked tasks,
-- apps/cycle-manager/src/cleaners/cleanup-retry: requeue-failed.ts, requeue-blocked.ts and what they
-- call.
pub mod Context
pub mod Runs
pub mod Adjust
pub mod Failed
pub mod Lines
pub mod Rework
pub mod Blocked
pub mod Laws
pub mod Settled
pub mod Whole
mod Tests
