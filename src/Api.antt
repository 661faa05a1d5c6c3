-- ===== src/Api.antt =====
-- The requests of src/api/mod.rs: who sends one (Access), the same one again (Idempotency), and a
-- page of a result (Page).
pub mod Error
pub mod Access
pub mod Idempotency
pub mod Page
mod Tests
