-- ===== src/Manager.antt =====
-- The management layer: the Manager's queue and what it stands on.
pub mod Text
pub mod Address
pub mod Route
pub mod Queue
pub mod Protocol
pub mod Jobs
