-- ===== src/Matrix.antt =====
-- labs/lab2/user/dense_mm.c: the product of two matrices of doubles in memory of the device.
pub mod Program
pub mod Product
pub mod Main
mod Tests
