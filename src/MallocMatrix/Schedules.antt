-- ===== src/MallocMatrix/Schedules.antt =====
-- Every schedule of the parallel loop of user_space/test_programs/parallel_dense_mm.c.
use mathlib.Core.Path.{subst}
use cse422_archive.Matrix.Program.{cell, Numbers}
use cse422_archive.Matrix.Product.{row_bound, cell-eq}
use cse422_archive.MallocMatrix.Columns.{cell-injective, columns_first, columns_first-entry}
use cse422_archive.MallocMatrix.Team.{Work, Team, Step, load, store, next_row, Reach, start, later}
use cse422_archive.MallocMatrix.Iteration.{
  update_others, done-injective, with_entry, add_term, Column, load-Column, next_row-Column,
  store-Column, begun-Column, Column-beside,
}
use cse422_archive.Base.{
  ℕ, ◌+◌, ◌*◌, ◌^◌, ◌≤◌, ◌<◌, ◌≡◌, refl, sym, ap, ◌∙◌, ◌⊎◌, inl, inr, Option, none, some, arith,
  dec_lt, update, update_ne, Option-cases,
}
use cse422_archive.Machine.{read, write, read-ok, write-ok, done, Array, Done, Done-mono}

module _ (N : Numbers) where
  open N use {D, plus, times}

  module _ (A B : Array D) (n : ℕ) where
    -- Where every iteration has come to, and the size of the third matrix.
    pub record Together (C0 : Array D) (y : Team D) : Type 0 where
      pub size : y.matrix_c.size ≡ C0.size
      pub columns : (col : ℕ) → col < n → Column N A B n C0 y.matrix_c col (y.works col)

    module _ (word : n * n < 2 ^ 32) (fits_a : n * n ≤ A.size) (fits_b : n * n ≤ B.size)
        (C0 : Array D) (fits_c : n * n ≤ C0.size) where
      at_place :
          (X : Array D) (i j : ℕ)
          → n * n ≤ X.size
          → i < n
          → j < n
          → read X (cell n i j) ≡ done (X.at (i * n + j))
      at_place X i j fits hi hj =
          rw (cell-eq n i j word hi hj) (read-ok X (i * n + j) (omega (arith, row_bound n i hi)))

      seen :
          (X : Array D) (i j : ℕ) {x : D}
          → n * n ≤ X.size
          → i < n
          → j < n
          → read X (cell n i j) ≡ done x
          → x ≡ X.at (i * n + j)
      seen X i j fits hi hj e = done-injective (sym e ∙ at_place X i j fits hi hj)

      put_at :
          (X : Array D) (i j : ℕ) (v : D)
          → n * n ≤ X.size
          → i < n
          → j < n
          → write X (cell n i j) v ≡ done (with_entry X (i * n + j) v)
      put_at X i j v fits hi hj =
          rw (cell-eq n i j word hi hj) (write-ok X (i * n + j) v (omega (arith, row_bound n i hi)))

      pub column :
          (y : Team D) (col : ℕ) {w : Work D}
          → Together C0 y
          → col < n
          → y.works col ≡ w
          → Column N A B n C0 y.matrix_c col w
      column y col t hc e = subst (Column N A B n C0 y.matrix_c col) e (t.columns col hc)

      load-Together :
          (y : Team D) (col row index : ℕ) (x : D)
          → col < n
          → row < n
          → index < n
          → y.works col ≡ record { row = row; index = index; loaded = none }
          → read y.matrix_c (cell n row col) ≡ done x
          → Together C0 y
          → Together C0 (record y {
            works = update y.works col (record { row = row; index = index; loaded = some x });
          })
      load-Together y col row index x hc hr hi e r t = record {
        size = t.size;
        columns =
            update_others (λ j w. j < n → Column N A B n C0 y.matrix_c j w) y.works col _
              (λ j ne. t.columns j)
              λ h.
                load-Column N A B n C0 y.matrix_c col row index x hr hi
                  (seen y.matrix_c row col (omega (arith, t.size, fits_c)) hr hc r)
                  (column y col t hc e);
      }

      store-Together :
          (y : Team D) (col row index : ℕ) (x a b : D) {C' : Array D}
          → col < n
          → y.works col ≡ record { row = row; index = index; loaded = some x }
          → read A (cell n row index) ≡ done a
          → read B (cell n index col) ≡ done b
          → write y.matrix_c (cell n row col) (plus x (times a b)) ≡ done C'
          → Together C0 y
          → Together C0 (record {
            matrix_c = C';
            works = update y.works col (record { row = row; index = index + 1; loaded = none });
          })
      store-Together y col row index x a b hc e p q r t =
          let c = column y col t hc e in
          let (hr, hi, _) = c.held x refl in
          let terms : ◌≡◌ {A = D × D} (a, b) (A.at (row * n + index), B.at (index * n + col)) =
            λ i. (seen A row index fits_a hr hi p i, seen B index col fits_b hi hc q i) in
          let new =
            done-injective
              (sym r ∙ put_at y.matrix_c row col _ (omega (arith, t.size, fits_c)) hr hc)
            ∙ ap (λ z. with_entry y.matrix_c (row * n + col) (plus x (times z.0 z.1))) terms in
          subst
            (λ Z. Together C0 (record {
              matrix_c = Z;
              works = update y.works col (record { row = row; index = index + 1; loaded = none });
            }))
            (sym new)
            (record {
              size = t.size;
              columns =
                  update_others
                    (λ j w.
                      j < n
                      → Column N A B n C0
                          (with_entry y.matrix_c (row * n + col) (add_term N A B n row col x index))
                          j w)
                    y.works col _
                    (λ j ne h.
                      Column-beside N A B n C0 y.matrix_c
                        (with_entry y.matrix_c (row * n + col) (add_term N A B n row col x index)) j
                        (y.works j)
                        (λ i k.
                          update_ne y.matrix_c.at _
                            λ s. ne ((cell-injective n row col i j hc h s).1))
                        (t.columns j h))
                    λ h. store-Column N A B n C0 y.matrix_c col row index x hc c;
            })

      Step-Together :
          {col : ℕ} {y z : Team D} → Step N A B n col y z → Together C0 y → Together C0 z
      Step-Together {col} {y} (load row index x hc hr hi e r) t =
          load-Together y col row index x hc hr hi e r t
      Step-Together {col} {y} (store row index x a b hc e p q r) t =
          store-Together y col row index x a b hc e p q r t
      Step-Together {col} {y} (next_row row index hc hr hi e) t = record {
        size = t.size;
        columns =
            update_others (λ j w. j < n → Column N A B n C0 y.matrix_c j w) y.works col _
              (λ j ne. t.columns j)
              λ h. next_row-Column N A B n C0 y.matrix_c col row index hr hi (column y col t hc e);
      }

      pub Reach-Together : {k : ℕ} {y : Team D} → Reach N A B n C0 k y → Together C0 y
      Reach-Together start = record { size = refl; columns = λ col h. begun-Column N A B n C0 col }
      Reach-Together (later r s) = Step-Together s (Reach-Together r)

      -- An iteration that has not ended can go on itself, with its accesses in bounds.
      pub Reach-goes_on :
          {k : ℕ} {y : Team D} (col : ℕ)
          → Reach N A B n C0 k y
          → col < n
          → ((y.works col).row ≡ n) ⊎ ((z : Team D) × Step N A B n col y z)
      Reach-goes_on {y} col r hc =
          let t = Reach-Together r in
          let c = t.columns col hc in
          let room : n * n ≤ y.matrix_c.size = omega (arith, t.size, fits_c) in
          elim (Option-cases (y.works col).loaded) [
            | inr (x, e) ↦
                let (hr, hi, _) = c.held x e in
                inr (
                  _,
                  store (y.works col).row (y.works col).index x _ _ hc (ap (with_loaded y col) e)
                      (at_place A _ _ fits_a hr hi) (at_place B _ _ fits_b hi hc)
                      (put_at y.matrix_c _ _ _ room hr hc),
                )
            | inl e ↦ elim (dec_lt (y.works col).row n) [
              | no h ↦ inl (omega (arith, h, c.row_limit))
              | yes hr ↦ elim (dec_lt (y.works col).index n) [
                | yes hi ↦ inr (
                  _,
                  load _ _ _ hc hr hi (ap (with_loaded y col) e)
                      (at_place y.matrix_c _ _ room hr hc),
                )
                | no hi ↦ inr (_, next_row _ _ hc hr hi (ap (with_loaded y col) e))
              ]
            ]
          ]
        where
          with_loaded : Team D → ℕ → Option D → Work D
          with_loaded y col l = record {
            row = (y.works col).row;
            index = (y.works col).index;
            loaded = l;
          }

      -- For a size whose square is below 2^32 and three matrices with room for it, when every iteration
      -- of the parallel loop has ended, the third matrix has the entries that one thread leaves there,
      -- in whichever order the threads' accesses came.
      pub schedule-Product :
          {k : ℕ} {y : Team D}
          → Reach N A B n C0 k y
          → ((col : ℕ) → col < n → (y.works col).row ≡ n)
          → Done
              (λ E. (i j : ℕ) → i < n → j < n → y.matrix_c.at (i * n + j) ≡ E.at (i * n + j))
              (columns_first N A B n n 0 C0)
      schedule-Product {y} r ended =
          Done-mono (columns_first N A B n n 0 C0)
            (columns_first-entry N A B n word fits_a fits_b C0 fits_c)
            λ E h i j hi hj.
              ((Reach-Together r).columns j hj).above i (omega (arith, ended j hj))
              ∙ sym (h.1 i j hi hj)
