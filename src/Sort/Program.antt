-- ===== src/Sort/Program.antt =====
-- The functions of labs/lab2/user/sort.c. An `unsigned` is a number below 2^32, and the `n`-th call
-- of `rand` gives `rand n`.
use cse422_archive.Base.{
  ℕ, zero, suc, ◌+◌, ◌-◌, ◌%◌, ◌^◌, Bool, true, false, not, Option, none, some, ltb, ◌==◌,
  if◌then◌else◌,
}
use cse422_archive.Machine.{◌>>=◌, read, write, Outcome, done, fault, out_of_fuel, Array}
use cse422_archive.Sort.Doubles.{Doubles}

-- How `main` ends: `exit(-1)` with the usage line, -1 with no device, or 0 with the array.
pub data Exit (D : Type 0) : Type 0 where
  usage no_device : Exit D
  sort_done : Array D → Exit D

module _ (F : Doubles) (rand : ℕ → ℕ) where
  open F use {D, of_unsigned, to_unsigned, le}

  -- The temporary of `swap` is an `unsigned`.
  unfoldable pub swap : Array D → ℕ → ℕ → Outcome (Array D)
  swap A a b = do
    x ← read A a
    let temp = to_unsigned x
    y ← read A b
    A ← write A a y
    write A b (of_unsigned temp)

  -- The `for` loop of `partition`, with the rounds that are left.
  unfoldable pub partition_loop : ℕ → Array D → ℕ → ℕ → ℕ → Outcome (Array D × ℕ)
  partition_loop zero A pivot_val target index = done (A, target)
  partition_loop (suc rounds) A pivot_val target index = do
    x ← read A index
    elim (le x (of_unsigned pivot_val)) [
      | true ↦ swap A target index >>= λ A.
          partition_loop rounds A pivot_val ((target + 1) % 2 ^ 32) (index + 1)
      | false ↦ partition_loop rounds A pivot_val target (index + 1)
    ]

  -- `start < end` where it is called. A range of 0 would divide by zero.
  unfoldable pub partition : Array D → ℕ → ℕ → ℕ → Outcome (Array D × ℕ × ℕ)
  partition A calls start end =
      let range = (end + 2 ^ 32 - start) % 2 ^ 32 in
      let pivot = (rand calls % range + start) % 2 ^ 32 in
      if range == 0 then fault else do
        A ← swap A pivot end
        last ← read A end
        (A, target) ← partition_loop (end - start) A (to_unsigned last) start start
        A ← swap A target end
        done (A, calls + 1, target)

  -- `pivot - 1` is taken only above `start`.
  unfoldable pub quicksort : ℕ → Array D → ℕ → ℕ → ℕ → Outcome (Array D × ℕ)
  quicksort zero A calls start end = out_of_fuel
  quicksort (suc fuel) A calls start end = elim (ltb start end) [
    | true ↦ partition A calls start end >>= λ (A, calls, pivot).
        elim (ltb start pivot) [
          | true ↦ quicksort fuel A calls start (pivot - 1)
          | false ↦ done (A, calls)
        ]
        >>= λ (A, calls). elim (ltb pivot end) [
          | true ↦ quicksort fuel A calls (pivot + 1) end
          | false ↦ done (A, calls)
        ]
    | false ↦ done (A, calls)
  ]

  -- The loop that fills the array, with the rounds that are left.
  unfoldable pub fill : ℕ → Array D → ℕ → ℕ → Outcome (Array D × ℕ)
  fill zero A calls index = done (A, calls)
  fill (suc rounds) A calls index = do
    A ← write A index (of_unsigned (rand calls))
    fill rounds A (calls + 1) (index + 1)

  -- The check of `VERIFY_CORRECT`: the first place where the order breaks, for `error_quit`.
  unfoldable pub verify : ℕ → Array D → ℕ → Outcome (Option ℕ)
  verify zero A index = done none
  verify (suc rounds) A index = do
    x ← read A index
    y ← read A (index + 1)
    elim (le x y) [ true ↦ verify rounds A (index + 1) | false ↦ done (some index) ]

  -- The pointer that `mmap_malloc` returns; NULL has nothing behind it.
  abbrev pub memory : Option (Array D) → Array D
  memory none = record { size = 0; at = λ _. of_unsigned 0 }
  memory (some A) = A

  -- `main`, from the number that `atoi` gives; `opened` says whether `open` succeeded.
  unfoldable pub main : ℕ → ℕ → ℕ → Bool → Option (Array D) → Outcome (Exit D)
  main fuel argc array_size opened mapping =
      if not (argc == 2)
      then done usage
      else if not opened
      then done no_device
      else fill array_size (memory mapping) 0 0 >>= λ (A, calls).
          quicksort fuel A calls 0 array_size >>= λ (A, calls). done (sort_done A)
