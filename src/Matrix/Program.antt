-- ===== src/Matrix/Program.antt =====
-- The loops and `main` of labs/lab2/user/dense_mm.c. An `unsigned` is a number below 2^32; an access
-- out of a mapping's bounds is a fault. Timing and printing are left out.
use cse422_archive.Base.{
  ℕ, zero, suc, ◌+◌, ◌*◌, ◌%◌, ◌^◌, Bool, not, Option, none, some, ltb, ◌==◌, if◌then◌else◌,
}
use cse422_archive.Machine.{◌>>=◌, read, write, Outcome, done, Array}

-- `double` with its addition and multiplication, 0.0, and the conversion from `int`.
pub record Numbers : Type 1 where
  pub D : Type 0
  pub zero_double : D
  pub of_int : ℕ → D
  pub plus : D → D → D
  pub times : D → D → D

-- How `main` ends: `exit(-1)` with the usage line or the size error, -1 with no device, or 0.
pub data Ending (D : Type 0) : Type 0 where
  usage size_error no_device : Ending D
  multiplied : Array D → Ending D

-- `i*matrix_size + j`
abbrev pub cell : ℕ → ℕ → ℕ → ℕ
cell n i j = (i * n % 2 ^ 32 + j) % 2 ^ 32

abbrev pub sqrt_of_uint32_max : ℕ
sqrt_of_uint32_max = 65536

module _ (N : Numbers) where
  open N use {D, zero_double, plus, times}

  module _ (A B : Array D) (n : ℕ) where
    -- The innermost loop, with the rounds that are left.
    unfoldable pub index_loop : ℕ → ℕ → ℕ → ℕ → Array D → Outcome (Array D)
    index_loop zero row col index C = done C
    index_loop (suc rounds) row col index C = do
      x ← read C (cell n row col)
      a ← read A (cell n row index)
      b ← read B (cell n index col)
      C ← write C (cell n row col) (plus x (times a b))
      index_loop rounds row col (index + 1) C

    unfoldable pub col_loop : ℕ → ℕ → ℕ → Array D → Outcome (Array D)
    col_loop zero row col C = done C
    col_loop (suc rounds) row col C = do
      C ← index_loop n row col 0 C
      col_loop rounds row (col + 1) C

    unfoldable pub row_loop : ℕ → ℕ → Array D → Outcome (Array D)
    row_loop zero row C = done C
    row_loop (suc rounds) row C = do C ← col_loop n row 0 C; row_loop rounds (row + 1) C

  -- The pointer that `mmap_malloc` returns; NULL has nothing behind it.
  abbrev pub mapping : Option (Array D) → Array D
  mapping none = record { size = 0; at = λ _. zero_double }
  mapping (some A) = A

  -- `main`, from the number that `atoi` gives, whether `open` succeeds, and the three mappings.
  unfoldable pub main :
      ℕ → ℕ → Bool → Option (Array D) → Option (Array D) → Option (Array D) → Outcome (Ending D)
  main argc matrix_size opened A B C =
      if not (argc == 2)
      then done usage
      else if ltb sqrt_of_uint32_max matrix_size
      then done size_error
      else if not opened
      then done no_device
      else row_loop (mapping A) (mapping B) matrix_size matrix_size 0 (mapping C) >>= λ C.
          done (multiplied C)
