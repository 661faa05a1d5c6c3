-- ===== src/Store.antt =====
-- The governed state of src/store/mod.rs: datasets, the parallel tables of rule and knowledge
-- entries, their snapshots and audit histories. A statement whose constraints hold is taken to
-- succeed, and a transaction writes all or nothing.
pub mod Tests
pub mod State
pub mod Query
pub mod Moves
pub mod Saved
pub mod Entries
pub mod Knowledge
pub mod Review
pub mod Datasets
pub mod Publish
pub mod Reach
