-- ===== src/Matrix/Tests.antt =====
-- labs/lab2/user/dense_mm.c on two matrices of size 2, over natural numbers.
use cse422_archive.Base.{ℕ, ◌+◌, ◌*◌, ◌≡◌, refl, true, some, arith}
use cse422_archive.Matrix.Program.{
  index_loop, col_loop, row_loop, main, Ending, multiplied, Numbers,
}
use cse422_archive.Matrix.Main.{ProductOf, main-ProductOf}
use cse422_archive.Machine.{read, write, Done, Outcome, done, Array}

abbrev naturals : Numbers
naturals = record {
  D = ℕ;
  zero_double = 0;
  of_int = λ x. x;
  plus = λ x y. x + y;
  times = λ x y. x * y;
}

-- The rows 1 2 and 3 4, the rows 2 3 and 4 5, and a matrix that holds sevens.
abbrev left_matrix : Array ℕ
left_matrix = record { size = 4; at = λ i. i + 1 }

abbrev right_matrix : Array ℕ
right_matrix = record { size = 4; at = λ i. i + 2 }

abbrev sevens : Array ℕ
sevens = record { size = 4; at = λ _. 7 }

abbrev entry_of : Ending ℕ → ℕ → ℕ
entry_of (multiplied E) i = E.at i
entry_of _ i = 0

-- 3 * 2 + 4 * 4 + 7
abbrev third : Outcome (Ending ℕ) → ℕ
third (done e) = entry_of e 2
third _ = 0

two_by_two :
    third (main naturals 2 2 true (some left_matrix) (some right_matrix) (some sevens)) ≡ 29
unfolding main row_loop col_loop index_loop read write
two_by_two = refl

main-ProductOf_example :
    Done
      (ProductOf naturals 2 left_matrix right_matrix sevens)
      (main naturals 2 2 true (some left_matrix) (some right_matrix) (some sevens))
main-ProductOf_example =
    main-ProductOf naturals 2 left_matrix right_matrix sevens (omega arith) (omega arith)
      (omega arith) (omega arith)
