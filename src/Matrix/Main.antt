-- ===== src/Matrix/Main.antt =====
-- What `main` of labs/lab2/user/dense_mm.c computes.
use cse422_archive.Base.{ℕ, ◌+◌, ◌*◌, ◌^◌, ◌≤◌, ◌<◌, ◌≡◌, true, false, some, arith, ltb}
use cse422_archive.Matrix.Program.{sqrt_of_uint32_max, row_loop, main, Ending, multiplied, Numbers}
use cse422_archive.Matrix.Product.{entry, Multiplied, row_loop-Multiplied}
use cse422_archive.Machine.{Done, Done-bind, Array}

module _ (N : Numbers) where
  open N use {D}

  -- Each entry is the old one with the terms of the product added to it, in order.
  abbrev pub ProductOf : ℕ → Array D → Array D → Array D → Ending D → Type 0
  ProductOf n A B C (multiplied E) =
      (i j : ℕ) → i < n → j < n → E.at (i * n + j) ≡ entry N A B n n i j 0 (C.at (i * n + j))
  ProductOf n A B C _ = ⊥

  pub square_bound : (n : ℕ) → n < 65536 → n * n < 2 ^ 32
  square_bound n h = grind arith

  -- For a size n below 65536, with the device open and three mappings of at least n*n doubles, `main`
  -- makes no access out of bounds and adds to each entry of the third matrix, in order, the products
  -- of the first's row and the second's column. It does not set the entries to zero before.
  pub main-ProductOf :
      (n : ℕ) (A B C : Array D)
      → n < 65536
      → n * n ≤ A.size
      → n * n ≤ B.size
      → n * n ≤ C.size
      → Done (ProductOf n A B C) (main N 2 n true (some A) (some B) (some C))
  unfolding main
  main-ProductOf n A B C small fits_a fits_b fits_c = rw in_range (
      Done-bind (Multiplied N A B n (square_bound n small) fits_a fits_b 0 C) (ProductOf n A B C)
        (row_loop N A B n n 0 C) _
        (row_loop-Multiplied N A B n (square_bound n small) fits_a fits_b n 0 C (omega arith)
          fits_c)
        λ E h i j a b. h.1 i j (omega arith) a b)
    where
      in_range : ltb sqrt_of_uint32_max n ≡ false
      in_range = ground arith
