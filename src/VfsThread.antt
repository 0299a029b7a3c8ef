-- ===== src/VfsThread.antt =====
-- studios/studio15: a module whose thread prints directories and writes to another process's output.
pub mod Program
pub mod Target
pub mod Ending
pub mod Subdirs
mod Tests
