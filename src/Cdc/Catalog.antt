-- ===== src/Cdc/Catalog.antt =====
-- session_cdc_catalog.rs: in which generations a session transfers its files, and which of the
-- files that it has committed stay in the catalog of chunks that later files may use.
pub mod Types
pub mod Entries
pub mod Planner
pub mod Bounds
pub mod Agreement
pub mod Planning
pub mod Sorting
pub mod Plans
pub mod Basis
pub mod Replay
pub mod Published
pub mod Bases
pub mod Validator
mod Tests
