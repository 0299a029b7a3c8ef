-- ===== src/MallocMatrix/Columns.antt =====
-- The loops of user_space/test_programs/parallel_dense_mm.c and timed_parallel_dense_mm.c, which go
-- through the columns first, as one thread runs them.
use cse422_archive.Base.{
  ℕ, zero, suc, ◌+◌, ◌*◌, ◌^◌, ◌≤◌, ◌<◌, ◌≡◌, refl, sym, ap, ◌∙◌, ◌≢◌, arith, dec_lt, ℕ_discrete,
}
use mathlib.Core.Path.{subst}
use cse422_archive.Matrix.Program.{index_loop, Numbers}
use cse422_archive.Matrix.Product.{entry, Entered, index_loop-Entered}
use cse422_archive.Machine.{◌>>=◌, Done, Done-mono, Done-bind, Outcome, done, Array}

module _ (N : Numbers) where
  open N use {D}

  module _ (A B : Array D) (n : ℕ) where
    -- The loop over the rows, within a column, with the rounds that are left.
    unfoldable pub rows_within : ℕ → ℕ → ℕ → Array D → Outcome (Array D)
    rows_within zero row col C = done C
    rows_within (suc rounds) row col C = do
      C ← index_loop N A B n n row col 0 C
      rows_within rounds (row + 1) col C

    unfoldable pub columns_first : ℕ → ℕ → Array D → Outcome (Array D)
    columns_first zero col C = done C
    columns_first (suc rounds) col C = do
      C ← rows_within n 0 col C
      columns_first rounds (col + 1) C

row_step : (n i i' : ℕ) → i < i' → i * n + n ≤ i' * n
row_step n i i' h = grind arith

same_row : (n i j i' j' : ℕ) → j < n → j' < n → i * n + j ≡ i' * n + j' → i ≡ i'
same_row n i j i' j' h h' e = elim (dec_lt i i') [
  | yes l ↦ absurd (omega (arith, e, row_step n i i' l))
  | no a ↦ elim (dec_lt i' i) [
    | yes l ↦ absurd (omega (arith, e, row_step n i' i l))
    | no b ↦ omega arith
  ]
]

-- A place tells its row and its column.
pub cell-injective :
    (n i j i' j' : ℕ) → j < n → j' < n → i * n + j ≡ i' * n + j' → (i ≡ i') × (j ≡ j')
cell-injective n i j i' j' h h' e =
    let r = same_row n i j i' j' h h' e in (r, omega (arith, e, ap (λ x. x * n) r))

module _ (N : Numbers) where
  open N use {D}

  module _ (A B : Array D) (n : ℕ) (word : n * n < 2 ^ 32) (fits_a : n * n ≤ A.size)
      (fits_b : n * n ≤ B.size) where
    -- The entries of a column from `row` on, and all other entries left alone.
    record InColumn (row col : ℕ) (C E : Array D) : Type 0 where
      size : E.size ≡ C.size
      entered :
          (i : ℕ)
          → row ≤ i
          → i < n
          → E.at (i * n + col) ≡ entry N A B n n i col 0 (C.at (i * n + col))
      above : (i : ℕ) → i < row → E.at (i * n + col) ≡ C.at (i * n + col)
      beside : (i j : ℕ) → i < n → j < n → j ≢ col → E.at (i * n + j) ≡ C.at (i * n + j)

    rows_within-InColumn :
        (rounds row col : ℕ) (C : Array D)
        → col < n
        → row + rounds ≡ n
        → n * n ≤ C.size
        → Done (InColumn row col C) (rows_within N A B n rounds row col C)
    unfolding rows_within
    rows_within-InColumn zero row col C hc e f = record {
      size = refl;
      entered = λ i l m. absurd (omega arith);
      above = λ i l. refl;
      beside = λ i j l m ne. refl;
    }
    rows_within-InColumn (suc rounds) row col C hc e f =
        Done-bind
          (Entered N A B n word fits_a fits_b (row * n + col)
            (entry N A B n n row col 0 (C.at (row * n + col))) C)
          (InColumn row col C) (index_loop N A B n n row col 0 C) _
          (index_loop-Entered N A B n word fits_a fits_b n row col 0 C (omega arith) hc
            (omega arith) f)
          λ X x.
            Done-mono (rows_within N A B n rounds (row + 1) col X)
              (rows_within-InColumn rounds (row + 1) col X hc (omega arith) (omega (arith, x.0)))
              λ E h. record {
                size = h.size ∙ x.0;
                entered = λ i l m. elim (ℕ_discrete row i) [
                  | yes p ↦
                      subst (λ r. E.at (r * n + col) ≡ entry N A B n n r col 0 (C.at (r * n + col)))
                        p (h.above row (omega arith) ∙ x.1)
                  | no ne ↦
                      h.entered i (omega arith) m
                      ∙ ap (entry N A B n n i col 0) (
                          x.2 (i * n + col)
                            (λ q. ne (sym ((cell-injective n i col row col hc hc q).0))))
                ];
                above = λ i l.
                    h.above i (omega arith)
                    ∙ x.2 (i * n + col) (λ q. lt-ne l ((cell-injective n i col row col hc hc q).0));
                beside = λ i j l m ne.
                    h.beside i j l m ne
                    ∙ x.2 (i * n + j) (λ q. ne ((cell-injective n i j row col m hc q).1));
              }
      where
        lt-ne : {a b : ℕ} → a < b → a ≢ b
        lt-ne l e = omega arith

    -- The columns from `col` on, and the earlier ones left alone.
    record InColumns (col : ℕ) (C E : Array D) : Type 0 where
      size : E.size ≡ C.size
      entered :
          (i j : ℕ)
          → i < n
          → col ≤ j
          → j < n
          → E.at (i * n + j) ≡ entry N A B n n i j 0 (C.at (i * n + j))
      before : (i j : ℕ) → i < n → j < col → j < n → E.at (i * n + j) ≡ C.at (i * n + j)

    columns_first-InColumns :
        (rounds col : ℕ) (C : Array D)
        → col + rounds ≡ n
        → n * n ≤ C.size
        → Done (InColumns col C) (columns_first N A B n rounds col C)
    unfolding columns_first
    columns_first-InColumns zero col C e f = record {
      size = refl;
      entered = λ i j l m k. absurd (omega arith);
      before = λ i j l m k. refl;
    }
    columns_first-InColumns (suc rounds) col C e f =
        Done-bind (InColumn 0 col C) (InColumns col C) (rows_within N A B n n 0 col C) _
          (rows_within-InColumn n 0 col C (omega arith) (omega arith) f)
          λ X x.
            Done-mono (columns_first N A B n rounds (col + 1) X)
              (columns_first-InColumns rounds (col + 1) X (omega arith) (omega (arith, x.size)))
              λ E h. record {
                size = h.size ∙ x.size;
                entered = λ i j l m k. elim (ℕ_discrete col j) [
                  | yes p ↦
                      subst (λ c. E.at (i * n + c) ≡ entry N A B n n i c 0 (C.at (i * n + c))) p
                        (h.before i col l (omega arith) (omega arith) ∙ x.entered i (omega arith) l)
                  | no ne ↦
                      h.entered i j l (omega arith) k
                      ∙ ap (entry N A B n n i j 0) (x.beside i j l k (λ q. ne (sym q)))
                ];
                before =
                    λ i j l m k. h.before i j l (omega arith) k ∙ x.beside i j l k (λ q. lt-ne m q);
              }
      where
        lt-ne : {a b : ℕ} → a < b → a ≢ b
        lt-ne l e = omega arith

    -- Columns first, the loops give every entry the same value that they give it rows first.
    pub columns_first-entry :
        (C : Array D)
        → n * n ≤ C.size
        → Done
            (λ E.
              (E.size ≡ C.size)
              × ((i j : ℕ)
                  → i < n
                  → j < n
                  → E.at (i * n + j) ≡ entry N A B n n i j 0 (C.at (i * n + j))))
            (columns_first N A B n n 0 C)
    columns_first-entry C f =
        Done-mono (columns_first N A B n n 0 C) (columns_first-InColumns n 0 C (omega arith) f)
          λ E h. (h.size, λ i j l m. h.entered i j l (omega arith) m)
