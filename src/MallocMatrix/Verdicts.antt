-- ===== src/MallocMatrix/Verdicts.antt =====
-- When the comparison of VERIFY_PARALLEL passes.
use cse422_archive.MallocMatrix.Statistics.{Stats}
use cse422_archive.MallocMatrix.Timed.{time_loop}
use cse422_archive.MallocMatrix.Repeated.{added, Looped, time_loop-Looped, added-same}
use cse422_archive.MallocMatrix.Program.{generate}
use mathlib.Core.Path.{subst}
use cse422_archive.Base.{
  ℕ, ◌+◌, ◌*◌, ◌%◌, ◌^◌, ◌≤◌, ◌<◌, ◌≡◌, refl, sym, ap, ◌∙◌, ◌↔◌, Bool, true, false, some, arith,
  ltb, ◌==◌, pos,
}
use cse422_archive.Machine.{◌>>=◌, Done, Done-mono, Done-bind, done, Array}
use cse422_archive.Matrix.Program.{sqrt_of_uint32_max, Numbers}
use cse422_archive.Matrix.Product.{row_bound, entry}
use cse422_archive.Matrix.Main.{square_bound}
use cse422_archive.MallocMatrix.Generated.{
  generate-Generated, first_matrix, second_matrix, entry-same, squared-eq, Generated,
}
use cse422_archive.MallocMatrix.Columns.{columns_first, columns_first-entry}
use cse422_archive.MallocMatrix.Checked.{
  assert_same, verify_product, verdict, generate_four, parallel_checked, timed_checked, Verdict,
  passed,
}
use cse422_archive.MallocMatrix.Compared.{
  place, assert_same_iff, zeros, zeros-size, zeros-at, generate_four-generate,
}

verdict-passed :
    (N : Numbers) (equal : N.D → N.D → Bool) (ok : Bool)
    → (verdict N equal ok ≡ passed) ↔ (ok ≡ true)
verdict-passed N equal true = (λ e. refl, λ e. refl)
verdict-passed N equal false = (λ e. cc, λ e. cc)

module _ (N : Numbers) (equal : N.D → N.D → Bool) (rand : ℕ → ℕ) where
  open N use {D, zero_double}

  -- The elements that `f` gives compare equal to those of the product.
  Agree : Array D → Array D → ℕ → (ℕ → ℕ → D) → Type 0
  Agree A B n f =
      (i j : ℕ) → i < n → j < n → equal (f i j) (entry N A B n n i j 0 zero_double) ≡ true

  module _ (A B : Array D) (n : ℕ) (small : n < 65536) (fits_a : n * n ≤ A.size)
      (fits_b : n * n ≤ B.size) where
    verify_product-Agree :
        (C E : Array D) (f : ℕ → ℕ → D)
        → n * n ≤ C.size
        → n * n ≤ E.size
        → ((i j : ℕ) → i < n → j < n → C.at (i * n + j) ≡ f i j)
        → ((k : ℕ) → k < n * n → E.at k ≡ zero_double)
        → Done (λ ok. (ok ≡ true) ↔ Agree A B n f) (verify_product N equal A B n C E)
    unfolding verify_product Agree
    verify_product-Agree C E f c d same zero_first = rw (squared-eq N rand n small) (
        Done-bind _ _ (columns_first N A B n n 0 E) _
          (columns_first-entry N A B n (square_bound N n small) fits_a fits_b E d)
          λ X x.
            let from_zero : (i j : ℕ)
                → i < n
                → j < n
                → X.at (i * n + j) ≡ entry N A B n n i j 0 zero_double =
              λ i j a b.
                x.1 i j a b
                ∙ ap (entry N A B n n i j 0)
                    (zero_first (i * n + j) (omega (arith, row_bound n i a))) in
            Done-mono (assert_same N equal (n * n) C X 0)
              (assert_same_iff N equal (n * n) C X 0 (n * n) (omega arith) c (omega (arith, x.0)))
              λ ok (sound, complete). (
                λ v i j a b.
                    rw (sym (same i j a b), sym (from_zero i j a b))
                      (sound v (i * n + j) (omega arith) (omega (arith, row_bound n i a))),
                λ all. complete (λ k l h.
                    place (λ k. equal (C.at k) (X.at k) ≡ true) n
                      (λ i j a b. rw (same i j a b, from_zero i j a b) (all i j a b)) k h),
              ))

  abbrev pub product_entry : ℕ → ℕ → ℕ → D
  product_entry n i j =
      entry N (first_matrix N rand n) (second_matrix N rand n) n n i j 0 zero_double

  -- An entry of the product added to 0.0 a number of times.
  abbrev pub repeated_entry : (clock : ℕ → ℕ) → ℕ → ℕ → ℕ → ℕ → D
  repeated_entry clock n k i j =
      added N rand clock (first_matrix N rand n) (second_matrix N rand n) n k i j zero_double

  -- The third matrix, with the elements that `h` gives, is compared with the product.
  abbrev pub Compares : ℕ → (ℕ → ℕ → D) → Verdict → Type 0
  Compares n h v =
      (v ≡ passed) ↔ ((i j : ℕ) → i < n → j < n → equal (h i j) (product_entry n i j) ≡ true)

  module _ (n : ℕ) (A B C E : Array D) (small : n < 65536) (a : n * n ≤ A.size) (b : n * n ≤ B.size)
      (c : n * n ≤ C.size) (d : n * n ≤ E.size) where
    Filled : Array D × Array D × Array D × Array D → Type 0
    Filled (A', B', C', E') =
        Generated N rand A B C 0 (n * n) (A', B', C') × (E' ≡ zeros N equal (n * n) 0 E)

    generate_four-Filled : Done Filled (generate_four N equal rand (n * n) 0 A B C E)
    unfolding Filled
    generate_four-Filled =
        rw (generate_four-generate N equal rand (n * n) 0 (n * n) A B C E (omega arith) a b c d) (
          Done-bind (Generated N rand A B C 0 (n * n)) Filled (generate N rand (n * n) 0 A B C) _
            (generate-Generated N rand (n * n) 0 (n * n) A B C (omega arith) a b c)
            λ x g. (g, refl))

    in_range : ltb sqrt_of_uint32_max n ≡ false
    in_range = ground arith

    module _ (A' B' C' E' : Array D) (g : Generated N rand A B C 0 (n * n) (A', B', C'))
        (z : E' ≡ zeros N equal (n * n) 0 E) where
      fits_a : n * n ≤ A'.size
      fits_a = omega (arith, g.size_a, a)

      fits_b : n * n ≤ B'.size
      fits_b = omega (arith, g.size_b, b)

      random_entry :
          (i j : ℕ) → i < n → j < n → entry N A' B' n n i j 0 zero_double ≡ product_entry n i j
      random_entry i j x y =
          entry-same N rand A' B' n (λ l m. g.first l (omega arith) m)
            (λ l m. g.second l (omega arith) m) n i j 0 zero_double x y (omega arith)

      verdict-Compares :
          (X : Array D) (h : ℕ → ℕ → D)
          → n * n ≤ X.size
          → ((i j : ℕ) → i < n → j < n → X.at (i * n + j) ≡ h i j)
          → Done
              (Compares n h)
              (verify_product N equal A' B' n X E' >>= λ ok. done (verdict N equal ok))
      unfolding Agree
      verdict-Compares X h f same =
          Done-bind (λ ok. (ok ≡ true) ↔ Agree A' B' n h) (Compares n h)
            (verify_product N equal A' B' n X E') _
            (verify_product-Agree A' B' n small fits_a fits_b X E' h f
              (omega (arith, ap (λ x. x.size) z, zeros-size N equal (n * n) 0 E, d)) same
              (λ k l.
                ap (λ x. x.at k) z ∙ zeros-at N equal (n * n) 0 k E (omega arith) (omega arith)))
            λ ok (sound, complete). (
              λ v i j x y.
                  subst (λ r. equal (h i j) r ≡ true) (random_entry i j x y)
                    (sound ((verdict-passed N equal ok).0 v) i j x y),
              λ all. (verdict-passed N equal ok).1 (
                  complete (λ i j x y.
                    subst (λ r. equal (h i j) r ≡ true) (sym (random_entry i j x y))
                      (all i j x y))),
            )

    -- For a size n below 65536 and four replies of `malloc` with room for n*n doubles, parallel_dense_mm
    -- with VERIFY_PARALLEL makes no access out of bounds, and its comparison passes exactly when each
    -- entry of the product of the two random matrices compares equal to itself, which all but a NaN do.
    pub parallel_checked-passed :
        Done
          (Compares n (product_entry n))
          (parallel_checked N equal rand 2 n (some A) (some B) (some C) (some E))
    unfolding parallel_checked Filled
    parallel_checked-passed =
        rw (in_range, squared-eq N rand n small)
          (Done-bind Filled (Compares n (product_entry n))
            (generate_four N equal rand (n * n) 0 A B C E) _ generate_four-Filled
            λ (A', B', C', E') (g, z).
              Done-bind _ (Compares n (product_entry n)) (columns_first N A' B' n n 0 C') _
                (columns_first-entry N A' B' n (square_bound N n small) (fits_a A' B' C' E' g z)
                  (fits_b A' B' C' E' g z) C' (omega (arith, g.size_c, c)))
                λ X x.
                  verdict-Compares A' B' C' E' g z X (product_entry n)
                    (omega (arith, x.0, g.size_c, c))
                    λ i j p q.
                      x.1 i j p q
                      ∙ ap (entry N A' B' n n i j 0)
                          (g.third (i * n + j) (omega arith) (omega (arith, row_bound n i p)))
                      ∙ random_entry A' B' C' E' g z i j p q)

    -- Under the same conditions and for from 1 to 2^64 - 1 iterations, timed_parallel_dense_mm with
    -- VERIFY_PARALLEL makes no access out of bounds, and its comparison passes exactly when each entry,
    -- to which the product is added once for each iteration, compares equal to the product.
    pub timed_checked-passed :
        (clock : ℕ → ℕ) (k : ℕ) (initial : Stats)
        → 0 < k
        → k < 2 ^ 64
        → Done (Compares n (repeated_entry clock n k)) (
            timed_checked N equal rand clock 3 n
              (pos k)
              initial
              (some A)
              (some B)
              (some C)
              (some E))
    unfolding timed_checked Filled
    timed_checked-passed clock k initial some_run word =
        rw (in_range, squared-eq N rand n small)
          (Done-bind Filled (Compares n (repeated_entry clock n k))
            (generate_four N equal rand (n * n) 0 A B C E) _ generate_four-Filled
            λ (A', B', C', E') (g, z).
              let fa = fits_a A' B' C' E' g z in
              let fb = fits_b A' B' C' E' g z in
              let w = square_bound N n small in
              Done-bind (Looped N rand clock A' B' n w fa fb k 0 initial C')
                (Compares n (repeated_entry clock n k))
                (time_loop N rand clock A' B' n k 0 initial C') _
                (time_loop-Looped N rand clock A' B' n w fa fb k 0 initial C'
                  (omega (arith, g.size_c, c)))
                λ (s, X) h. rw nonzero (
                  verdict-Compares A' B' C' E' g z X (repeated_entry clock n k)
                    (omega (arith, h.2, g.size_c, c))
                    λ i j x y.
                      h.1 i j x y
                      ∙ ap (added N rand clock A' B' n k i j)
                          (g.third (i * n + j) (omega arith) (omega (arith, row_bound n i x)))
                      ∙ added-same N rand clock A' B' n (λ l m. g.first l (omega arith) m)
                          (λ l m. g.second l (omega arith) m) k i j zero_double x y))
      where
        nonzero : (k % 2 ^ 64 == 0) ≡ false
        nonzero = ground arith
