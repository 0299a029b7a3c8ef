-- ===== src/Matrix/Product.antt =====
-- What the loops of labs/lab2/user/dense_mm.c leave in the third matrix.
use cse422_archive.Base.{
  ℕ, zero, suc, ◌+◌, ◌*◌, ◌^◌, ◌≤◌, ◌<◌, ◌≡◌, refl, ap, ◌∙◌, ◌≢◌, ◌⊎◌, inl, inr, arith, ℕ_discrete,
  update, update_self,
}
use cse422_archive.Matrix.Program.{cell, index_loop, col_loop, row_loop, Numbers}
use mathlib.Core.Path.{subst}
use cse422_archive.Machine.{read-ok, write-ok, Done, Done-mono, Done-bind, Array}

-- The sizes are as `main` asks for them, and small enough not to wrap.
abbrev pub Fits : ℕ → ℕ → Type 0
Fits n size = (n * n ≤ size) × (n * n < 2 ^ 32)

pub row_bound : (n i : ℕ) → i < n → i * n + n ≤ n * n
row_bound n i h = grind arith

pub cell-eq : (n i j : ℕ) → n * n < 2 ^ 32 → i < n → j < n → cell n i j ≡ i * n + j
cell-eq n i j w hi hj = omega (arith, row_bound n i hi)

module _ (N : Numbers) where
  open N use {D, plus, times}

  module _ (A B : Array D) (n : ℕ) where
    -- An entry of the product, added to what was there: from `index` on, `rounds` terms.
    unfoldable pub entry : ℕ → ℕ → ℕ → ℕ → D → D
    entry zero row col index x = x
    entry (suc rounds) row col index x =
        entry rounds row col (index + 1)
          (plus x (times (A.at (row * n + index)) (B.at (index * n + col))))

    module _ (word : n * n < 2 ^ 32) (fits_a : n * n ≤ A.size) (fits_b : n * n ≤ B.size) where
      -- The entry at a place, and the rest of the matrix left alone.
      abbrev pub Entered : ℕ → D → Array D → Array D → Type 0
      Entered place x C E =
          (E.size ≡ C.size) × (E.at place ≡ x) × ((i : ℕ) → i ≢ place → E.at i ≡ C.at i)

      abbrev add_term : ℕ → ℕ → ℕ → Array D → Array D
      add_term row col index C = record C {
        at =
            update C.at (row * n + col) (
              plus (C.at (row * n + col))
                (times (A.at (row * n + index)) (B.at (index * n + col))));
      }

      pub index_loop-Entered :
          (rounds row col index : ℕ) (C : Array D)
          → row < n
          → col < n
          → index + rounds ≤ n
          → n * n ≤ C.size
          → Done
              (Entered (row * n + col) (entry rounds row col index (C.at (row * n + col))) C)
              (index_loop N A B n rounds row col index C)
      unfolding index_loop entry
      index_loop-Entered zero row col index C hr hc e f = (refl, refl, λ i ne. refl)
      index_loop-Entered (suc rounds) row col index C hr hc e f =
          rw
            (
              cell-eq n row col word hr hc,
              cell-eq n row index word hr (omega arith),
              cell-eq n index col word (omega arith) hc,
              read-ok C (row * n + col) place_c,
              read-ok A (row * n + index) (omega (arith, row_bound n row hr)),
              read-ok B (index * n + col) (omega (arith, row_bound n index (omega arith))),
            )
            (rw
              (write-ok C (row * n + col)
                (plus (C.at (row * n + col))
                  (times (A.at (row * n + index)) (B.at (index * n + col))))
                place_c)
              (Done-mono (index_loop N A B n rounds row col (index + 1) (add_term row col index C))
                (index_loop-Entered rounds row col (index + 1) (add_term row col index C) hr hc
                  (omega arith) f)
                λ E h. (
                  h.0,
                  h.1 ∙ ap (entry rounds row col (index + 1)) (update_self C.at _ _),
                  λ i ne. h.2 i ne ∙ ground arith,
                )))
        where
          place_c : row * n + col < C.size
          place_c = omega (arith, row_bound n row hr)

      -- The row from `col` on, and the rest of the matrix left alone.
      abbrev Rowed : ℕ → ℕ → Array D → Array D → Type 0
      Rowed row col C E =
          (E.size ≡ C.size)
          × ((j : ℕ) → col ≤ j → j < n → E.at (row * n + j) ≡ entry n row j 0 (C.at (row * n + j)))
          × ((i : ℕ) → (i < row * n + col) ⊎ (row * n + n ≤ i) → E.at i ≡ C.at i)

      Rowed-step :
          (row col : ℕ) (C X E : Array D)
          → col < n
          → Entered (row * n + col) (entry n row col 0 (C.at (row * n + col))) C X
          → Rowed row (col + 1) X E
          → Rowed row col C E
      Rowed-step row col C X E hc x h = (
        h.0 ∙ x.0,
        (λ j a b. elim (ℕ_discrete col j) [
          | yes e ↦
              subst (λ k. E.at (row * n + k) ≡ entry n row k 0 (C.at (row * n + k))) e
                (h.2 (row * n + col) (inl (omega arith)) ∙ x.1)
          | no ne ↦
              h.1 j (omega arith) b
              ∙ ap (entry n row j 0) (x.2 (row * n + j) (λ e. ne (omega arith)))
        ]),
        λ i o. h.2 i (wider i o) ∙ x.2 i (away i o),
      )
        where
          wider :
              (i : ℕ)
              → (i < row * n + col) ⊎ (row * n + n ≤ i)
              → (i < row * n + (col + 1)) ⊎ (row * n + n ≤ i)
          wider i (inl a) = inl (omega arith)
          wider i (inr a) = inr a

          away : (i : ℕ) → (i < row * n + col) ⊎ (row * n + n ≤ i) → i ≢ row * n + col
          away i (inl a) e = omega arith
          away i (inr a) e = omega arith

      col_loop-Rowed :
          (rounds row col : ℕ) (C : Array D)
          → row < n
          → col + rounds ≡ n
          → n * n ≤ C.size
          → Done (Rowed row col C) (col_loop N A B n rounds row col C)
      unfolding col_loop
      col_loop-Rowed zero row col C hr e f = (refl, (λ j a b. absurd (omega arith)), λ i o. refl)
      col_loop-Rowed (suc rounds) row col C hr e f =
          Done-bind (Entered (row * n + col) (entry n row col 0 (C.at (row * n + col))) C)
            (Rowed row col C) (index_loop N A B n n row col 0 C) _
            (index_loop-Entered n row col 0 C hr (omega arith) (omega arith) f)
            λ X x.
              Done-mono (col_loop N A B n rounds row (col + 1) X)
                (col_loop-Rowed rounds row (col + 1) X hr (omega arith) (omega (arith, x.0)))
                λ E h. Rowed-step row col C X E (omega arith) x h

      -- The rows from `row` on, and the earlier ones left alone.
      abbrev pub Multiplied : ℕ → Array D → Array D → Type 0
      Multiplied row C E =
          (E.size ≡ C.size)
          × ((i j : ℕ)
              → row ≤ i
              → i < n
              → j < n
              → E.at (i * n + j) ≡ entry n i j 0 (C.at (i * n + j)))
          × ((k : ℕ) → k < row * n → E.at k ≡ C.at k)

      Multiplied-step :
          (row : ℕ) (C X E : Array D)
          → Rowed row 0 C X
          → Multiplied (row + 1) X E
          → Multiplied row C E
      Multiplied-step row C X E x h = (
        h.0 ∙ x.0,
        (λ i j a b c. elim (ℕ_discrete row i) [
          | yes e ↦
              subst (λ r. E.at (r * n + j) ≡ entry n r j 0 (C.at (r * n + j))) e
                (h.2 (row * n + j) (omega (arith, next)) ∙ x.1 j (omega arith) c)
          | no ne ↦
              h.1 i j (omega arith) b c
              ∙ ap (entry n i j 0) (x.2 (i * n + j) (inr (omega (arith, after i (omega arith)))))
        ]),
        λ k l. h.2 k (omega (arith, next)) ∙ x.2 k (inl (omega arith)),
      )
        where
          next : (row + 1) * n ≡ row * n + n
          next = grind arith

          after : (i : ℕ) → row < i → row * n + n ≤ i * n
          after i lt = grind arith

      pub row_loop-Multiplied :
          (rounds row : ℕ) (C : Array D)
          → row + rounds ≡ n
          → n * n ≤ C.size
          → Done (Multiplied row C) (row_loop N A B n rounds row C)
      unfolding row_loop
      row_loop-Multiplied zero row C e f = (refl, (λ i j a b c. absurd (omega arith)), λ k l. refl)
      row_loop-Multiplied (suc rounds) row C e f =
          Done-bind (Rowed row 0 C) (Multiplied row C) (col_loop N A B n n row 0 C) _
            (col_loop-Rowed n row 0 C (omega arith) (omega arith) f)
            λ X x.
              Done-mono (row_loop N A B n rounds (row + 1) X)
                (row_loop-Multiplied rounds (row + 1) X (omega arith) (omega (arith, x.0)))
                λ E h. Multiplied-step row C X E x h
