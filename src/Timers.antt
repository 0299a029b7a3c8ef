-- ===== src/Timers.antt =====
-- labs/lab1: a recurring timer that wakes kernel threads.
pub mod System
pub mod Rounds
pub mod Stopped
pub mod Missing
pub mod Removal
mod Tests
