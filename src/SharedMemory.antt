-- ===== src/SharedMemory.antt =====
-- studios/studio13: a leader and a follower that hand an array over in shared memory.
pub mod System
pub mod Invariant
pub mod Handover
pub mod Channel
mod Tests
