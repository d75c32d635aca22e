-- ===== src/Loops.antt =====
-- The runner tokens of the loops and their timers: loop-token-store.ts, loop-refresh.ts,
-- loop-refresh-scheduler.ts, loop-scheduler-context.ts and jwt-utils.ts of apps/desktop/src/main.
pub mod Tokens
pub mod Refresh
pub mod Requests
pub mod Keys
pub mod Resume
pub mod Disabled
pub mod KeyKept
pub mod Flights
pub mod Retry
pub mod Timers
pub mod Tracking
pub mod Teardown
pub mod Reach
mod TestPlatform
mod Tests
mod TimerTests
