-- ===== src/MallocMatrix/Sample.antt =====
-- Natural numbers for tests of the programs of user_space/test_programs.
use cse422_archive.Base.{ℕ, ◌+◌, ◌*◌}
use cse422_archive.Matrix.Program.{Numbers}

abbrev pub naturals : Numbers
naturals = record {
  D = ℕ;
  zero_double = 0;
  of_int = λ x. x;
  plus = λ x y. x + y;
  times = λ x y. x * y;
}
