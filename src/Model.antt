-- ===== src/Model.antt =====
-- The data model of src/model: life cycles, roles, entries and datasets.
pub mod Lifecycle
pub mod Auth
pub mod Governance
pub mod Entry
pub mod Dataset
pub mod Writeback
