-- ===== src/ArrSearch.antt =====
-- user_space/test_programs/arr_search.c: rounds that allocate, fill, search, clear and free an array.
pub mod Program
pub mod Rounds
mod Tests
