-- ===== src/Outbound.antt =====
-- The rules for outgoing requests (apps/desktop/src/server/outbound-url-policy.ts).
pub mod Hosts
pub mod Policy
pub mod Allowed
pub mod Health
mod Tests
