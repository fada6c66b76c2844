-- ===== src/Cdc.antt =====
-- Content-defined chunking within one session.
pub mod Catalog
