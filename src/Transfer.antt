-- ===== src/Transfer.antt =====
-- The transfer of files over several streams.
pub mod Stripes
pub mod Manifest
pub mod Plan
pub mod Offer
pub mod Fresh
pub mod Execution
pub mod Candidates
