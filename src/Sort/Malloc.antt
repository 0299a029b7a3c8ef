-- ===== src/Sort/Malloc.antt =====
-- user_space/test_programs/sort.c, and its copy in studios/studio14: the functions of
-- labs/lab2/user/sort.c over a block of `malloc`, with VERIFY_CORRECT or without. The text that is
-- printed is left out, but for the elements that `error_quit` prints.
use cse422_archive.Base.{
  ℕ, zero, suc, ◌+◌, ◌-◌, ◌%◌, ◌^◌, ◌≤◌, ◌<◌, ◌≡◌, refl, Bool, true, false, not, Option, none, some,
  List, [], ◌∷◌, ◌==◌, if◌then◌else◌, arith, dec_lt,
}
use cse422_archive.Machine.{◌>>=◌, read, read-ok, read-fault, Outcome, done, fault, Array, Done}
use cse422_archive.Sort.Doubles.{Doubles}
use cse422_archive.Sort.Program.{quicksort, fill, verify, memory}
use cse422_archive.Sort.Exchange.{IsExact}
use cse422_archive.Sort.Main.{InOrder, verify_iff, sort_random-past_end, sort_random-InOrder}

-- How `main` ends: `exit(-1)` with the usage line, `abort` with the place of the error and what has
-- been printed, or 0 with the array.
pub data Finish (D : Type 0) : Type 0 where
  usage : Finish D
  aborted : ℕ → List D → Finish D
  sorted : Array D → Finish D

module _ (F : Doubles) (rand : ℕ → ℕ) where
  open F use {D, of_unsigned, to_unsigned, le}

  -- The loop of `error_quit`, with the rounds that are left.
  unfoldable pub error_quit : ℕ → Array D → ℕ → Outcome (List D)
  error_quit zero A index = done []
  error_quit (suc rounds) A index = do
    x ← read A index
    xs ← error_quit rounds A (index + 1)
    done (x ∷ xs)

  unfoldable pub after_verify : Array D → ℕ → Option ℕ → Outcome (Finish D)
  after_verify A array_size none = done (sorted A)
  after_verify A array_size (some location) =
      error_quit array_size A 0 >>= λ printed. done (aborted location printed)

  -- The bound of the loop, `array_size - 1`, is an `unsigned`.
  unfoldable pub check_order : Bool → ℕ → Array D → Outcome (Finish D)
  unfolding after_verify
  check_order verify_correct array_size A =
      if verify_correct
      then verify F rand ((array_size + 2 ^ 32 - 1) % 2 ^ 32) A 0 >>= after_verify A array_size
      else done (sorted A)

  -- `main`, from the number that `atoi` gives and the reply of `malloc`.
  unfoldable pub malloc_main : ℕ → ℕ → ℕ → Bool → Option (Array D) → Outcome (Finish D)
  malloc_main fuel argc array_size verify_correct block =
      if not (argc == 2)
      then done usage
      else fill F rand array_size (memory F rand block) 0 0 >>= λ (A, calls).
          quicksort F rand fuel A calls 0 array_size >>= λ (A, calls).
          check_order verify_correct array_size A

  -- The program has sorted the array, and has not aborted.
  abbrev pub Passed : ℕ → Finish D → Type 0
  Passed n (sorted B) = InOrder F rand n B
  Passed n _ = ⊥

  check_order-Passed :
      (verify_correct : Bool) (n : ℕ) (A : Array D)
      → 0 < n
      → n < 2 ^ 32
      → n < A.size
      → InOrder F rand n A
      → Done (Passed n) (check_order verify_correct n A)
  unfolding check_order
  check_order-Passed false n A positive word room s = s
  check_order-Passed true n A positive word room s =
      rw (bound, (verify_iff F rand (n - 1) A 0 (omega arith)).1 λ i a b. s i (omega arith)) s
    where
      bound : (n + 2 ^ 32 - 1) % 2 ^ 32 ≡ n - 1
      bound = omega arith

  -- For a size of at least one and fewer than 2^32, over exact values and with more fuel than
  -- elements, with VERIFY_CORRECT or without, `main` of test_programs/sort.c ends with its elements in
  -- order and does not abort where the block has room for one more double than was asked for, and
  -- reads past the block's end where it has not.
  pub malloc_main-by_room :
      (fuel n : ℕ) (verify_correct : Bool) (A : Array D)
      → 0 < n
      → n < 2 ^ 32
      → n < suc fuel
      → ((c : ℕ) → IsExact F rand (of_unsigned (rand c)))
      → IsExact F rand (A.at n)
      → (n < A.size → Done (Passed n) (malloc_main (suc fuel) 2 n verify_correct (some A)))
        × (A.size ≡ n → malloc_main (suc fuel) 2 n verify_correct (some A) ≡ fault)
  unfolding malloc_main
  malloc_main-by_room fuel n verify_correct A positive word enough exact extra = (
    λ fits.
        sort_random-InOrder F rand (Passed n) (suc fuel) n A _ fits word enough exact extra
          (λ y room s. check_order-Passed verify_correct n y.0 positive word room s),
    λ e. sort_random-past_end F rand fuel n A _ e positive word,
  )

  verify-no_room :
      (rounds : ℕ) (A : Array D) → 0 < rounds → A.size ≤ 1 → verify F rand rounds A 0 ≡ fault
  unfolding verify
  verify-no_room zero A some_round small = absurd (omega arith)
  verify-no_room (suc rounds) A some_round small = elim (dec_lt 0 A.size) [
    | yes h ↦ rw (read-ok A 0 h, read-fault A 1 small) refl
    | no h ↦ rw (read-fault A 0 (omega (arith, h))) refl
  ]

  -- With VERIFY_CORRECT and the size 0, whose predecessor is 2^32 - 1, `main` reads past the end of a
  -- block of at most one double.
  malloc_main-empty :
      (fuel : ℕ) (A : Array D) → A.size ≤ 1 → malloc_main (suc fuel) 2 0 true (some A) ≡ fault
  unfolding malloc_main fill quicksort check_order
  malloc_main-empty fuel A small = rw (verify-no_room (2 ^ 32 - 1) A (omega arith) small) refl
