-- ===== src/MallocMatrix.antt =====
-- user_space/test_programs: products of two random matrices in memory of malloc, plain and timed.
pub mod Program
pub mod Generated
pub mod Columns
pub mod Statistics
pub mod Extremes
pub mod Timed
pub mod Repeated
pub mod Checked
pub mod Compared
pub mod Verdicts
pub mod Team
pub mod Iteration
pub mod Schedules
pub mod Steps
pub mod Parallel
pub mod Sample
mod Interleaved
mod Tests
