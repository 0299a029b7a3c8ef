-- ===== src/UserSpace.antt =====
-- The small programs of user_space, each of a few system calls.
pub mod Allocate
pub mod Fork
pub mod Verses
pub mod Clocks
