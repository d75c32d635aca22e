-- ===== src/Boot.antt =====
-- Recovery of the loops when the application starts: boot-recovery.ts of apps/desktop/src/main.
pub mod Status
pub mod Reconcile
pub mod Reattach
pub mod Candidates
pub mod Final
pub mod Settled
pub mod Recovered
pub mod Sweep
mod Tests
