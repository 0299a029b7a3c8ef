-- ===== src/MallocMatrix/Checked.antt =====
-- The programs user_space/test_programs/parallel_dense_mm.c and timed_parallel_dense_mm.c with
-- VERIFY_PARALLEL, which multiply once more and compare. `equal` is `==` on doubles.
use cse422_archive.Base.{
  ℕ, zero, suc, ◌+◌, ◌*◌, Bool, true, false, not, Option, ltb, ◌==◌, if◌then◌else◌, ℤ, pos,
}
use cse422_archive.Machine.{◌>>=◌, read, write, Outcome, done, Array}
use cse422_archive.Matrix.Program.{sqrt_of_uint32_max, mapping, Numbers}
use cse422_archive.MallocMatrix.Program.{squared}
use cse422_archive.MallocMatrix.Columns.{columns_first}
use cse422_archive.MallocMatrix.Statistics.{Stats}
use cse422_archive.MallocMatrix.Timed.{mean, rounds_of, time_loop}

-- How the programs end: `exit(-1)`, the abort of a failed `assert`, or 0. `null_argument` is the crash of
-- `atoi` on a NULL argument.
pub data Verdict : Type 0 where
  refused null_argument aborted passed : Verdict

module _ (N : Numbers) (equal : N.D → N.D → Bool) where
  open N use {D, zero_double}

  -- The loop of `assert`, with the rounds that are left: `false` is a failed one.
  unfoldable pub assert_same : ℕ → Array D → Array D → ℕ → Outcome Bool
  assert_same zero C E index = done true
  assert_same (suc rounds) C E index = do
    x ← read C index
    y ← read E index
    elim (equal x y) [ true ↦ assert_same rounds C E (index + 1) | false ↦ done false ]

  -- The product once more, in the fourth matrix, and the comparison.
  unfoldable pub verify_product : (A B : Array D) → ℕ → Array D → Array D → Outcome Bool
  verify_product A B n C E = do E ← columns_first N A B n n 0 E; assert_same (squared n) C E 0

  abbrev pub verdict : Bool → Verdict
  verdict ok = if ok then passed else aborted

  module _ (rand : ℕ → ℕ) where
    -- The loop that generates the four matrices, with the rounds that are left.
    unfoldable pub generate_four :
        ℕ
        → ℕ
        → Array D
        → Array D
        → Array D
        → Array D
        → Outcome (Array D × Array D × Array D × Array D)
    generate_four zero index A B C E = done (A, B, C, E)
    generate_four (suc rounds) index A B C E = do
      A ← write A index (N.of_int (rand (2 * index)))
      B ← write B index (N.of_int (rand (2 * index + 1)))
      C ← write C index zero_double
      E ← write E index zero_double
      generate_four rounds (index + 1) A B C E

    -- `main` of parallel_dense_mm.c
    unfoldable pub parallel_checked :
        ℕ
        → ℕ
        → Option (Array D)
        → Option (Array D)
        → Option (Array D)
        → Option (Array D)
        → Outcome Verdict
    parallel_checked argc matrix_size A B C E =
        if not (argc == 2)
        then done refused
        else if ltb sqrt_of_uint32_max matrix_size
        then done refused
        else generate_four (squared matrix_size) 0 (mapping N A) (mapping N B) (mapping N C)
            (mapping N E)
          >>= λ (A, B, C, E). columns_first N A B matrix_size matrix_size 0 C >>= λ C.
              verify_product A B matrix_size C E >>= λ ok. done (verdict ok)

    -- `main` of timed_parallel_dense_mm.c
    unfoldable pub timed_checked :
        (clock : ℕ → ℕ)
        → ℕ
        → ℕ
        → ℤ
        → Stats
        → Option (Array D)
        → Option (Array D)
        → Option (Array D)
        → Option (Array D)
        → Outcome Verdict
    timed_checked clock argc matrix_size second initial A B C E =
        let iterations = if ltb 2 argc then second else pos 1 in
        if ltb 3 argc
        then done refused
        else if ltb argc 2
        then done null_argument
        else if ltb sqrt_of_uint32_max matrix_size
        then done refused
        else generate_four (squared matrix_size) 0 (mapping N A) (mapping N B) (mapping N C)
            (mapping N E)
          >>= λ (A, B, C, E).
              time_loop N rand clock A B matrix_size (rounds_of iterations) 0 initial C
              >>= λ (s, C). mean s iterations >>= λ m.
                  verify_product A B matrix_size C E >>= λ ok. done (verdict ok)
