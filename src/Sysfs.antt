-- ===== src/Sysfs.antt =====
-- studios/studio5: attributes of kernel objects, and the ancestors of a process.
pub mod Program
pub mod Walk
pub mod Attributes
mod Tests
