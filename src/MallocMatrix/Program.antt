-- ===== src/MallocMatrix/Program.antt =====
-- user_space/test_programs/dense_mm.c: the product of two random matrices in memory of `malloc`. The
-- `n`-th call of `rand` gives `rand n`. NULL of `malloc` has nothing behind it.
use cse422_archive.Matrix.Program.{
  sqrt_of_uint32_max, row_loop, mapping, Ending, usage, size_error, multiplied, Numbers,
}
use cse422_archive.Base.{ℕ, zero, suc, ◌+◌, ◌*◌, ◌%◌, ◌^◌, not, Option, ltb, ◌==◌, if◌then◌else◌}
use cse422_archive.Machine.{◌>>=◌, write, Outcome, done, Array}

abbrev pub squared : ℕ → ℕ
squared n = n * n % 2 ^ 32

module _ (N : Numbers) (rand : ℕ → ℕ) where
  open N use {D, zero_double, of_int}

  -- The loop that generates the matrices, with the rounds that are left.
  unfoldable pub generate :
      ℕ → ℕ → Array D → Array D → Array D → Outcome (Array D × Array D × Array D)
  generate zero index A B C = done (A, B, C)
  generate (suc rounds) index A B C = do
    A ← write A index (of_int (rand (2 * index)))
    B ← write B index (of_int (rand (2 * index + 1)))
    C ← write C index zero_double
    generate rounds (index + 1) A B C

  -- `main`, from the number that `atoi` gives and the three replies of `malloc`.
  unfoldable pub main :
      ℕ → ℕ → Option (Array D) → Option (Array D) → Option (Array D) → Outcome (Ending D)
  main argc matrix_size A B C =
      if not (argc == 2)
      then done usage
      else if ltb sqrt_of_uint32_max matrix_size
      then done size_error
      else generate (squared matrix_size) 0 (mapping N A) (mapping N B) (mapping N C)
        >>= λ (A, B, C). row_loop N A B matrix_size matrix_size 0 C >>= λ C. done (multiplied C)
