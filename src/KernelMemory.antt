-- ===== src/KernelMemory.antt =====
-- studios/studio12/kernel_memory.c: a kernel thread fills pages, and the module checks them on exit.
pub mod Order
pub mod Program
pub mod Words
pub mod Fill
pub mod Clean
pub mod Lifetime
pub mod NoBlock
mod Tests
