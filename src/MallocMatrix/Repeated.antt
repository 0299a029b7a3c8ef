-- ===== src/MallocMatrix/Repeated.antt =====
-- What the programs parallel_dense_mm.c and timed_parallel_dense_mm.c compute.
use native.Mathlib.Nat.{mod-eq_of_lt}
use cse422_archive.Matrix.Main.{square_bound}
use cse422_archive.MallocMatrix.Program.{generate, main}
use cse422_archive.MallocMatrix.Generated.{
  generate-Generated, Generated-entry, first_matrix, second_matrix, entry-same, RandomProduct,
  squared-eq, main-RandomProduct, Generated,
}
use cse422_archive.Base.{
  ℕ, zero, suc, ◌+◌, ◌*◌, ◌/◌, ◌%◌, ◌^◌, ◌≤◌, ◌<◌, ◌≡◌, refl, ap, ◌∙◌, false, some, arith, ltb,
  ◌==◌, ℤ, pos,
}
use cse422_archive.MallocMatrix.Columns.{columns_first, columns_first-entry}
use cse422_archive.MallocMatrix.Statistics.{record_run, record_runs, Stats}
use cse422_archive.MallocMatrix.Timed.{
  parallel_main, run_ns, time_loop, timed_main, run_times, Timing, timed,
}
use cse422_archive.Matrix.Program.{sqrt_of_uint32_max, Numbers}
use cse422_archive.Matrix.Product.{row_bound, entry}
use cse422_archive.Machine.{Done, Done-mono, Done-bind, Array}

module _ (N : Numbers) (rand clock : ℕ → ℕ) where
  open N use {D, zero_double}

  -- An entry after a number of products have been added to it.
  abbrev pub added : Array D → Array D → ℕ → ℕ → ℕ → ℕ → D → D
  added A B n zero i j x = x
  added A B n (suc rounds) i j x = added A B n rounds i j (entry N A B n n i j 0 x)

  module _ (A B : Array D) (n : ℕ) (word : n * n < 2 ^ 32) (fits_a : n * n ≤ A.size)
      (fits_b : n * n ≤ B.size) where
    abbrev pub Looped : ℕ → ℕ → Stats → Array D → Stats × Array D → Type 0
    Looped rounds i s C x =
        (x.0 ≡ record_runs i (run_times clock rounds i) s)
        × ((r c : ℕ)
            → r < n
            → c < n
            → x.1.at (r * n + c) ≡ added A B n rounds r c (C.at (r * n + c)))
        × (x.1.size ≡ C.size)

    pub time_loop-Looped :
        (rounds i : ℕ) (s : Stats) (C : Array D)
        → n * n ≤ C.size
        → Done (Looped rounds i s C) (time_loop N rand clock A B n rounds i s C)
    unfolding time_loop record_runs
    time_loop-Looped zero i s C f = (refl, (λ r c a b. refl), refl)
    time_loop-Looped (suc rounds) i s C f =
        Done-bind _ (Looped (suc rounds) i s C) (columns_first N A B n n 0 C) _
          (columns_first-entry N A B n word fits_a fits_b C f)
          λ X x.
            Done-mono
              (time_loop N rand clock A B n rounds (i + 1) (record_run i (run_ns N rand clock i) s)
                X)
              (time_loop-Looped rounds (i + 1) (record_run i (run_ns N rand clock i) s) X
                (omega (arith, x.0)))
              λ y h. (
                h.0,
                (λ r c a b. h.1 r c a b ∙ ap (added A B n rounds r c) (x.1 r c a b)),
                h.2 ∙ x.0,
              )

  module _ (A B : Array D) (n : ℕ) (same_a : (i : ℕ) → i < n * n → A.at i ≡ N.of_int (rand (2 * i)))
      (same_b : (i : ℕ) → i < n * n → B.at i ≡ N.of_int (rand (2 * i + 1))) where
    pub added-same :
        (rounds i j : ℕ) (x : D)
        → i < n
        → j < n
        → added A B n rounds i j x
          ≡ added (first_matrix N rand n) (second_matrix N rand n) n rounds i j x
    added-same zero i j x a b = refl
    added-same (suc rounds) i j x a b =
        rw (entry-same N rand A B n same_a same_b n i j 0 x a b (omega arith))
          (added-same rounds i j _ a b)

  -- The statistics of the runs, their mean, and the product added once for each iteration.
  abbrev TimedProduct : ℕ → ℕ → Stats → Timing D → Type 0
  TimedProduct n k initial (timed s m E) =
      (s ≡ record_runs 0 (run_times clock k 0) initial)
      × (m ≡ s.sum_ns / k)
      × ((i j : ℕ)
          → i < n
          → j < n
          → E.at (i * n + j)
            ≡ added (first_matrix N rand n) (second_matrix N rand n) n k i j zero_double)
  TimedProduct n k initial _ = ⊥

  module _ (n : ℕ) (A B C : Array D) (small : n < 65536) (a : n * n ≤ A.size) (b : n * n ≤ B.size)
      (c : n * n ≤ C.size) where
    in_range : ltb sqrt_of_uint32_max n ≡ false
    in_range = ground arith

    -- For a size n below 65536, three replies of `malloc` with room for n*n doubles, and from 1 to
    -- 2^64 - 1 iterations, the timed program makes no access out of bounds and prints the statistics
    -- of its runs and their mean, and each entry of the third matrix is 0.0 with the terms of the
    -- product of the two random matrices added in order, once for each iteration.
    timed_main-TimedProduct :
        (k : ℕ) (maxns minns : ℤ)
        → 0 < k
        → k < 2 ^ 64
        → Done
            (TimedProduct n k (record { max_ns = maxns; min_ns = minns; sum_ns = 0 }))
            (timed_main N rand clock 3 n (pos k) maxns minns (some A) (some B) (some C))
    unfolding timed_main
    timed_main-TimedProduct k maxns minns some_run word =
        rw (in_range, squared-eq N rand n small)
          (Done-bind (Generated N rand A B C 0 (n * n)) _ (generate N rand (n * n) 0 A B C) _
            (generate-Generated N rand (n * n) 0 (n * n) A B C (omega arith) a b c)
            λ (A', B', C') g.
              let fa : n * n ≤ A'.size = omega (arith, g.size_a, a) in
              let fb : n * n ≤ B'.size = omega (arith, g.size_b, b) in
              let w = square_bound N n small in
              Done-bind (Looped A' B' n w fa fb k 0 initial C') _
                (time_loop N rand clock A' B' n k 0 initial C') _
                (time_loop-Looped A' B' n w fa fb k 0 initial C' (omega (arith, g.size_c, c)))
                λ (s, E) h.
                  rw (nonzero, mod-eq_of_lt word)
                    (
                      h.0,
                      refl,
                      λ i j x y.
                          h.1 i j x y
                          ∙ ap (added A' B' n k i j)
                              (g.third (i * n + j) (omega arith) (omega (arith, row_bound n i x)))
                          ∙ added-same A' B' n (λ l m. g.first l (omega arith) m)
                              (λ l m. g.second l (omega arith) m) k i j zero_double x y,
                    ))
      where
        initial : Stats
        initial = record { max_ns = maxns; min_ns = minns; sum_ns = 0 }

        nonzero : (k % 2 ^ 64 == 0) ≡ false
        nonzero = ground arith

    parallel_main-RandomProduct :
        Done (RandomProduct N rand n) (parallel_main N rand 2 n (some A) (some B) (some C))
    unfolding parallel_main
    parallel_main-RandomProduct =
        rw (in_range, squared-eq N rand n small)
          (Done-bind (Generated N rand A B C 0 (n * n)) _ (generate N rand (n * n) 0 A B C) _
            (generate-Generated N rand (n * n) 0 (n * n) A B C (omega arith) a b c)
            λ (A', B', C') g.
              let fa : n * n ≤ A'.size = omega (arith, g.size_a, a) in
              let fb : n * n ≤ B'.size = omega (arith, g.size_b, b) in
              Done-bind _ (RandomProduct N rand n) (columns_first N A' B' n n 0 C') _
                (columns_first-entry N A' B' n (square_bound N n small) fa fb C'
                  (omega (arith, g.size_c, c)))
                λ E h i j x y. h.1 i j x y ∙ Generated-entry N rand n A B C (A', B', C') g i j x y)

    -- For a size n below 65536 and three replies of `malloc` with room for n*n doubles, the program
    -- that goes through the rows first and the one that goes through the columns first make no access
    -- out of bounds and end with the same product of the two random matrices.
    pub same_product :
        Done (RandomProduct N rand n) (main N rand 2 n (some A) (some B) (some C))
        × Done (RandomProduct N rand n) (parallel_main N rand 2 n (some A) (some B) (some C))
    same_product = (main-RandomProduct N rand n A B C small a b c, parallel_main-RandomProduct)
