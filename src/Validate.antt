-- ===== src/Validate.antt =====
-- The checks of src/validate/mod.rs.
pub mod Error
pub mod Boundary
pub mod Symbols
pub mod Credentials
pub mod Law
pub mod Mcp
pub mod Ingest
