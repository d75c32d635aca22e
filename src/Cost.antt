-- ===== src/Cost.antt =====
-- The nightly reconciliation of costs: cost-math.ts and reconciliation-store.ts of
-- apps/desktop/src/main.
pub mod Rows
pub mod Order
pub mod Upsert
pub mod Money
pub mod Rounding
pub mod Sums
mod Tests
