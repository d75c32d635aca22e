-- ===== src/Sandbox.antt =====
-- Which paths the gateway may use: security.ts of apps/desktop/src/server, sandbox-policy.ts and
-- path-utils.ts of apps/desktop/src/shared.
pub mod Paths
pub mod Inside
mod Tests
