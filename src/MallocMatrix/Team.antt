-- ===== src/MallocMatrix/Team.antt =====
-- The parallel loop of user_space/test_programs/parallel_dense_mm.c as the Makefile's -fopenmp builds
-- it: `col`, `row` and `index` are private, and every iteration over a column may run at the same time
-- as the others. Whichever thread runs a column, and in which order, is one of the runs below. A step
-- is one access to the third matrix; the other two matrices are only read.
use cse422_archive.Matrix.Program.{cell, Numbers}
use cse422_archive.Base.{ℕ, ◌+◌, ◌<◌, ◌≡◌, Option, none, some, update}
use cse422_archive.Machine.{read, write, done, Array}

-- An iteration: its `row` and `index`, and the entry that it has loaded and not yet stored.
pub record Work (D : Type 0) : Type 0 where
  pub row : ℕ
  pub index : ℕ
  pub loaded : Option D

pub record Team (D : Type 0) : Type 0 where
  pub matrix_c : Array D
  pub works : ℕ → Work D

abbrev pub begun : {D : Type 0} → Array D → Team D
begun C = record { matrix_c = C; works = λ _. record { row = 0; index = 0; loaded = none } }

module _ (N : Numbers) where
  open N use {D, plus, times}

  module _ (A B : Array D) (n : ℕ) where
    -- One step of the iteration over the column `col`.
    pub data Step (col : ℕ) (y : Team D) : Team D → Type 0 where
      load :
          (row index : ℕ) (x : D)
          → col < n
          → row < n
          → index < n
          → y.works col ≡ record { row = row; index = index; loaded = none }
          → read y.matrix_c (cell n row col) ≡ done x
          → Step col y (record y {
            works = update y.works col (record { row = row; index = index; loaded = some x });
          })
      store :
          (row index : ℕ) (x a b : D) {C' : Array D}
          → col < n
          → y.works col ≡ record { row = row; index = index; loaded = some x }
          → read A (cell n row index) ≡ done a
          → read B (cell n index col) ≡ done b
          → write y.matrix_c (cell n row col) (plus x (times a b)) ≡ done C'
          → Step col y (record {
            matrix_c = C';
            works = update y.works col (record { row = row; index = index + 1; loaded = none });
          })
      next_row :
          (row index : ℕ)
          → col < n
          → row < n
          → ¬ (index < n)
          → y.works col ≡ record { row = row; index = index; loaded = none }
          → Step col y (record y {
            works = update y.works col (record { row = row + 1; index = 0; loaded = none });
          })

    -- The teams that a number of steps leads to.
    pub data Reach (C : Array D) : ℕ → Team D → Type 0 where
      start : Reach C 0 (begun C)
      later : {k col : ℕ} {y z : Team D} → Reach C k y → Step col y z → Reach C (k + 1) z
