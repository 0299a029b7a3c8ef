-- ===== src/MallocMatrix/Parallel.antt =====
-- user_space/test_programs/parallel_dense_mm.c as the Makefile builds it, with OpenMP.
use cse422_archive.Matrix.Program.{Numbers}
use cse422_archive.Matrix.Main.{square_bound}
use cse422_archive.Matrix.Product.{entry}
use cse422_archive.MallocMatrix.Program.{squared, generate}
use cse422_archive.MallocMatrix.Generated.{
  generate-Generated, Generated-entry, first_matrix, second_matrix, squared-eq,
}
use cse422_archive.MallocMatrix.Team.{Team, Reach}
use cse422_archive.MallocMatrix.Schedules.{Reach-Together}
use cse422_archive.Base.{ℕ, ◌+◌, ◌*◌, ◌≤◌, ◌<◌, ◌≡◌, ◌∙◌, arith}
use cse422_archive.Machine.{Done, Done-mono, Array}

module _ (N : Numbers) (rand : ℕ → ℕ) where
  open N use {D, zero_double}

  -- For a size n below 65536 and three replies of `malloc` with room for n*n doubles, the matrices are
  -- generated with no access out of bounds, and whatever the order in which the threads go through
  -- the columns, when all have ended each entry of the third matrix is 0.0 with the products of the
  -- first's row and the second's column added in order.
  pub generate-Parallel :
      (n : ℕ) (A B C : Array D)
      → n < 65536
      → n * n ≤ A.size
      → n * n ≤ B.size
      → n * n ≤ C.size
      → Done
          (λ (A', B', C').
            (k : ℕ) (y : Team D)
            → Reach N A' B' n C' k y
            → ((col : ℕ) → col < n → (y.works col).row ≡ n)
            → (i j : ℕ) → i < n
            → j < n
            → y.matrix_c.at (i * n + j)
              ≡ entry N (first_matrix N rand n) (second_matrix N rand n) n n i j 0 zero_double)
          (generate N rand (squared n) 0 A B C)
  generate-Parallel n A B C small a b c = rw (squared-eq N rand n small) (
      Done-mono (generate N rand (n * n) 0 A B C)
        (generate-Generated N rand (n * n) 0 (n * n) A B C (omega arith) a b c)
        λ x g k y r ended i j hi hj.
          let w = square_bound N n small in
          let fa : n * n ≤ x.0.size = omega (arith, g.size_a, a) in
          let fb : n * n ≤ x.1.size = omega (arith, g.size_b, b) in
          let fc : n * n ≤ x.2.size = omega (arith, g.size_c, c) in
          ((Reach-Together N x.0 x.1 n w fa fb x.2 fc r).columns j hj).above i
            (omega (arith, ended j hj))
          ∙ Generated-entry N rand n A B C x g i j hi hj)
