-- ===== src/LineFile.antt =====
-- studios/studio16: programs that write, append and read lines of a file.
pub mod Program
pub mod Reader
pub mod Write
pub mod Number
pub mod Ends
pub mod Room
pub mod Records
pub mod Read
pub mod Short
mod Tests
