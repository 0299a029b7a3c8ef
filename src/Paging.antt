-- ===== src/Paging.antt =====
-- labs/lab2/mod/paging.c: the kernel module that gives pages to the mappings of /dev/paging.
pub mod Kernel
pub mod Driver
pub mod Ledger
pub mod Close
pub mod Prepage
pub mod Mmap
pub mod System
pub mod Invariant
pub mod Safety
pub mod Contract
pub mod Refinement
pub mod Sample
mod Tests
