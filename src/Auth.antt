-- ===== src/Auth.antt =====
-- src/auth/mod.rs: the digests and passwords, the tokens, the clock, and the flows of registration,
-- login, refresh and logout over the accounts.
pub mod Digest
pub mod Password
pub mod Token
pub mod Clock
pub mod Flow
pub mod Service
pub mod Session
pub mod Reach
pub mod Tests
