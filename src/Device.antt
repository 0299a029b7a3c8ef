-- ===== src/Device.antt =====
-- labs/lab2: the programs of labs/lab2/user over memory that labs/lab2/mod/paging.c maps.
pub mod Pages
pub mod Quicksort
pub mod Elements
mod Tests
