-- ===== src/Recovery.antt =====
-- What keeps the gateway running: gateway-recovery.ts, spawn-retry.ts and queue-stats-debounce.ts of
-- apps/desktop/src/main.
pub mod Gateway
pub mod Epochs
pub mod Spawn
pub mod Debounce
mod Tests
