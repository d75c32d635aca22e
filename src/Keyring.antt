-- ===== src/Keyring.antt =====
-- AuthorizedCommandKeyStore (apps/desktop/src/main/authorized-command-key-store.ts): the browser
-- keys whose commands this computer accepts.
pub mod Formats
pub mod File
pub mod Store
pub mod Normal
pub mod RoundTrip
pub mod Checked
pub mod Genuine
pub mod Authorize
pub mod Reconcile
pub mod Changes
pub mod Outcome
pub mod Removal
pub mod Distinct
mod Tests
