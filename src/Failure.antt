-- ===== src/Failure.antt =====
-- Failure codes, classification and retry limits: packages/core/src/failure-codes.ts,
-- failure-classifier.ts and failure-retry-policy.ts.
pub mod Codes
pub mod Classify
pub mod Laws
mod Tests
