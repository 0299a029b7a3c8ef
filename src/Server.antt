-- ===== src/Server.antt =====
-- studios/studio18/serverip.c: a server that prints the numbers its clients send.
pub mod Program
pub mod Coffee
pub mod Closing
mod Tests
