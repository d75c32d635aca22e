-- ===== src/Heartbeat.antt =====
-- The heartbeat of a loop: loop-status-classifier.ts, loop-404-gate.ts and loop-heartbeat.ts of
-- apps/desktop/src/main.
pub mod Classifier
pub mod Gate
pub mod Tick
pub mod Guarantees
pub mod Stranded
mod Tests
