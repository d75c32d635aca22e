-- ===== src/Signing.antt =====
-- CommandSignatureVerifier (apps/desktop/src/main/command-signature-verifier.ts): the check of a
-- command's signature.
pub mod Stringify
pub mod Verifier
pub mod Window
pub mod Freshness
pub mod Canonical
mod Tests
