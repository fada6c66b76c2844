-- ===== src/Resume.antt =====
-- resume_state.rs: the journal of what an interrupted transfer has completed.
pub mod Sets
pub mod Journal
pub mod Marks
pub mod Model
pub mod RoundTrip
pub mod Reading
pub mod Loading
mod Tests
