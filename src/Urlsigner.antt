-- ===== src/Urlsigner.antt =====
pub mod Digest
pub mod RoundTrip
pub mod Signer
pub mod Conditions
pub mod Secrets
pub mod Rewriting
pub mod Safety
pub mod Reading
mod Tests
