-- ===== src/Approvals.antt =====
-- The approval system: approval-store.ts, approval-policy.ts and approval-operations.ts of
-- apps/desktop/src/main.
pub mod Policy
pub mod Store
pub mod Index
pub mod Waiters
pub mod Clear
pub mod Operations
mod Tests
