-- ===== src/Threads.antt =====
-- studios/studio8: kernel threads that count with a shared loop counter.
pub mod State
pub mod System
pub mod Counting
pub mod Plain
pub mod Overflow
pub mod Unloading
pub mod Stopped
mod Tests
