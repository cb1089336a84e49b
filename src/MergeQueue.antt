-- ===== src/MergeQueue.antt =====
-- The merge queue of the judge, apps/judge/src/judge-merge-queue.ts.
pub mod Rows
pub mod Enqueue
pub mod Claims
pub mod Process
pub mod Invariant
pub mod Recover
pub mod Steps
pub mod Claiming
pub mod Settling
pub mod Histories
pub mod Laws
pub mod Fencing
pub mod Once
mod Tests
