-- ===== src/Sort.antt =====
-- labs/lab2/user/sort.c: a randomized quicksort over an array of doubles; and its form over `malloc`.
pub mod Doubles
pub mod Program
pub mod Exchange
pub mod Partition
pub mod Pivot
pub mod Order
pub mod Main
pub mod Malloc
pub mod Sample
mod Tests
