-- ===== src/Accounts.antt =====
-- The accounts of src/store/mod.rs: tenants, organisations and their members, users, the audit log of
-- authentication, revoked tokens and API keys.
pub mod State
pub mod Users
pub mod Orgs
pub mod Tokens
pub mod Growth
