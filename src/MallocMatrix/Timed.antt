-- ===== src/MallocMatrix/Timed.antt =====
-- The programs user_space/test_programs/parallel_dense_mm.c and timed_parallel_dense_mm.c, without
-- VERIFY_PARALLEL. The `n`-th reading of the clock has `tv_nsec` = `clock n`.
use cse422_archive.Base.{
  ℕ, zero, suc, ◌+◌, ◌*◌, ◌/◌, not, Option, List, [], ◌∷◌, ltb, ◌==◌, if◌then◌else◌, ℤ, pos, negsuc,
}
use cse422_archive.MallocMatrix.Program.{squared, generate}
use cse422_archive.MallocMatrix.Columns.{columns_first}
use cse422_archive.MallocMatrix.Statistics.{elapsed, to_ulong, record_run, Stats}
use cse422_archive.Matrix.Program.{
  sqrt_of_uint32_max, mapping, Ending, usage, size_error, multiplied, Numbers,
}
use cse422_archive.Machine.{◌>>=◌, Outcome, done, fault, Array}

-- What the timed program prints at its end: the statistics and the mean. `no_argument` is the crash
-- of `atoi` on a NULL argument.
pub data Timing (D : Type 0) : Type 0 where
  too_many_arguments too_large no_argument : Timing D
  timed : Stats → ℕ → Array D → Timing D

-- `sumns/iterations`, with the `int` made an `unsigned long`; a division by 0 is a fault.
abbrev pub mean : Stats → ℤ → Outcome ℕ
mean s iterations =
    if to_ulong iterations == 0 then fault else done (s.sum_ns / to_ulong iterations)

abbrev pub rounds_of : ℤ → ℕ
rounds_of (pos n) = n
rounds_of (negsuc n) = 0

module _ (N : Numbers) (rand : ℕ → ℕ) where
  open N use {D}

  -- `main` of parallel_dense_mm.c
  unfoldable pub parallel_main :
      ℕ → ℕ → Option (Array D) → Option (Array D) → Option (Array D) → Outcome (Ending D)
  parallel_main argc matrix_size A B C =
      if not (argc == 2)
      then done usage
      else if ltb sqrt_of_uint32_max matrix_size
      then done size_error
      else generate N rand (squared matrix_size) 0 (mapping N A) (mapping N B) (mapping N C)
        >>= λ (A, B, C).
            columns_first N A B matrix_size matrix_size 0 C >>= λ C. done (multiplied C)

module _ (N : Numbers) (rand clock : ℕ → ℕ) where
  open N use {D}

  abbrev pub run_ns : ℕ → ℤ
  run_ns i = elapsed (clock (2 * i)) (clock (2 * i + 1))

  -- The loop over the iterations, with the rounds that are left.
  unfoldable pub time_loop :
      (A B : Array D) → ℕ → ℕ → ℕ → Stats → Array D → Outcome (Stats × Array D)
  time_loop A B n zero i s C = done (s, C)
  time_loop A B n (suc rounds) i s C = do
    C ← columns_first N A B n n 0 C
    time_loop A B n rounds (i + 1) (record_run i (run_ns i) s) C

  -- `main` of timed_parallel_dense_mm.c, from the numbers that `atoi` gives, and from what `maxns` and
  -- `minns` hold before they are set.
  unfoldable pub timed_main :
      ℕ
      → ℕ
      → ℤ
      → ℤ
      → ℤ
      → Option (Array D)
      → Option (Array D)
      → Option (Array D)
      → Outcome (Timing D)
  timed_main argc matrix_size second maxns minns A B C =
      let iterations = if ltb 2 argc then second else pos 1 in
      if ltb 3 argc
      then done too_many_arguments
      else if ltb argc 2
      then done no_argument
      else if ltb sqrt_of_uint32_max matrix_size
      then done too_large
      else generate N rand (squared matrix_size) 0 (mapping N A) (mapping N B) (mapping N C)
        >>= λ (A, B, C).
            time_loop A B matrix_size (rounds_of iterations) 0
              (record { max_ns = maxns; min_ns = minns; sum_ns = 0 }) C
            >>= λ (s, C). mean s iterations >>= λ m. done (timed s m C)

-- The run times of a number of iterations from `i` on.
abbrev pub run_times : (ℕ → ℕ) → ℕ → ℕ → List ℤ
run_times clock zero i = []
run_times clock (suc rounds) i =
    elapsed (clock (2 * i)) (clock (2 * i + 1)) ∷ run_times clock rounds (i + 1)
