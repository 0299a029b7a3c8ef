-- ===== src/MallocMatrix/Iteration.antt =====
-- One iteration of the parallel loop of user_space/test_programs/parallel_dense_mm.c, over a column.
use mathlib.Core.Path.{subst}
use cse422_archive.Matrix.Program.{Numbers}
use cse422_archive.Matrix.Product.{entry}
use cse422_archive.MallocMatrix.Columns.{cell-injective}
use cse422_archive.MallocMatrix.Team.{Work}
use cse422_archive.Base.{
  ℕ, zero, suc, ◌+◌, ◌*◌, ◌≤◌, ◌<◌, ◌≡◌, refl, sym, ap, ◌∙◌, ◌≢◌, Option, none, some, arith,
  ℕ_discrete, update, update_self, update_ne,
}
use cse422_archive.Machine.{Outcome, done, Array}

pub done-injective : {X : Type 0} {x y : X} → ◌≡◌ {A = Outcome X} (done x) (done y) → x ≡ y
done-injective e = cc

pub update_others :
    {X : Type 0} (P : ℕ → X → Type 0) (f : ℕ → X) (i : ℕ) (a : X)
    → ((j : ℕ) → i ≢ j → P j (f j))
    → P i a
    → (j : ℕ) → P j (update f i a j)
update_others P f i a h p j = elim (ℕ_discrete i j) [
  | yes e ↦ subst (λ x. P x (update f i a x)) e (subst (P i) (sym (update_self f i a)) p)
  | no ne ↦ subst (P j) (sym (update_ne f a ne)) (h j ne)
]

abbrev pub with_entry : {X : Type 0} → Array X → ℕ → X → Array X
with_entry C place x = record C { at = update C.at place x }

module _ (N : Numbers) where
  open N use {D, plus, times}

  module _ (A B : Array D) (n : ℕ) where
    abbrev pub add_term : ℕ → ℕ → D → ℕ → D
    add_term row col x k = plus x (times (A.at (row * n + k)) (B.at (k * n + col)))

    entry-last :
        (rounds row col index : ℕ) (x : D)
        → entry N A B n (suc rounds) row col index x
          ≡ add_term row col (entry N A B n rounds row col index x) (index + rounds)
    unfolding entry
    entry-last zero row col index x = ap (add_term row col x) (omega arith)
    entry-last (suc rounds) row col index x =
        entry-last rounds row col (index + 1) _ ∙ ap (add_term row col _) (omega arith)

    entry-next :
        (row col index : ℕ) (x : D)
        → entry N A B n (index + 1) row col 0 x
          ≡ add_term row col (entry N A B n index row col 0 x) index
    entry-next row col index x =
        ap (λ k. entry N A B n k row col 0 x) (omega arith)
        ∙ entry-last index row col 0 x
        ∙ ap (add_term row col _) (omega arith)

    -- How far an iteration over a column has come.
    pub record Column (C0 C : Array D) (col : ℕ) (w : Work D) : Type 0 where
      pub row_limit : w.row ≤ n
      pub index_limit : w.index ≤ n
      pub above :
          (i : ℕ) → i < w.row → C.at (i * n + col) ≡ entry N A B n n i col 0 (C0.at (i * n + col))
      pub current :
          w.row < n
          → C.at (w.row * n + col) ≡ entry N A B n w.index w.row col 0 (C0.at (w.row * n + col))
      pub below : (i : ℕ) → w.row < i → i < n → C.at (i * n + col) ≡ C0.at (i * n + col)
      pub held :
          (x : D) → w.loaded ≡ some x → (w.row < n) × (w.index < n) × (x ≡ C.at (w.row * n + col))

    pub begun-Column :
        (C : Array D) (col : ℕ) → Column C C col (record { row = 0; index = 0; loaded = none })
    unfolding entry
    begun-Column C col = record {
      row_limit = omega arith;
      index_limit = omega arith;
      above = λ i h. absurd (omega arith);
      current = λ h. refl;
      below = λ i h k. refl;
      held = λ x e. cc;
    }

    -- A column does not see what is stored in the others.
    pub Column-beside :
        (C0 C C' : Array D) (col : ℕ) (w : Work D)
        → ((i : ℕ) → i < n → C'.at (i * n + col) ≡ C.at (i * n + col))
        → Column C0 C col w
        → Column C0 C' col w
    Column-beside C0 C C' col w same c = record {
      row_limit = c.row_limit;
      index_limit = c.index_limit;
      above = λ i h. same i (omega (arith, c.row_limit)) ∙ c.above i h;
      current = λ h. same w.row h ∙ c.current h;
      below = λ i h k. same i k ∙ c.below i h k;
      held = λ x e. let (r, m, q) = c.held x e in (r, m, q ∙ sym (same w.row r));
    }

    some-injective : {x y : D} → ◌≡◌ {A = Option D} (some x) (some y) → x ≡ y
    some-injective e = cc

    pub load-Column :
        (C0 C : Array D) (col row index : ℕ) (x : D)
        → row < n
        → index < n
        → x ≡ C.at (row * n + col)
        → Column C0 C col (record { row = row; index = index; loaded = none })
        → Column C0 C col (record { row = row; index = index; loaded = some x })
    load-Column C0 C col row index x r m e c = record {
      row_limit = c.row_limit;
      index_limit = c.index_limit;
      above = c.above;
      current = c.current;
      below = c.below;
      held = λ z q. (r, m, sym (some-injective q) ∙ e);
    }

    pub next_row-Column :
        (C0 C : Array D) (col row index : ℕ)
        → row < n
        → ¬ (index < n)
        → Column C0 C col (record { row = row; index = index; loaded = none })
        → Column C0 C col (record { row = row + 1; index = 0; loaded = none })
    unfolding entry
    next_row-Column C0 C col row index r m c = record {
      row_limit = omega arith;
      index_limit = omega arith;
      above = λ i h. elim (ℕ_discrete row i) [
        | yes e ↦
            subst (λ k. C.at (k * n + col) ≡ entry N A B n n k col 0 (C0.at (k * n + col))) e
              (subst (λ k. C.at (row * n + col) ≡ entry N A B n k row col 0 (C0.at (row * n + col)))
                full (c.current r))
        | no ne ↦ c.above i (omega arith)
      ];
      current = λ h. c.below (row + 1) (omega arith) h;
      below = λ i h k. c.below i (omega arith) k;
      held = λ x e. cc;
    }
      where
        full : index ≡ n
        full = omega (arith, c.index_limit)

    pub store-Column :
        (C0 C : Array D) (col row index : ℕ) (x : D)
        → col < n
        → Column C0 C col (record { row = row; index = index; loaded = some x })
        → Column C0
            (with_entry C (row * n + col) (add_term row col x index))
            col
            (record { row = row; index = index + 1; loaded = none })
    store-Column C0 C col row index x hc c =
        let (r, m, e) = c.held x refl in
        record {
          row_limit = c.row_limit;
          index_limit = omega arith;
          above = λ i h. other i (omega arith) ∙ c.above i h;
          current = λ h.
              update_self C.at (row * n + col) _
              ∙ ap (λ z. add_term row col z index) (e ∙ c.current r)
              ∙ sym (entry-next row col index (C0.at (row * n + col)));
          below = λ i h k. other i (omega arith) ∙ c.below i h k;
          held = λ z q. cc;
        }
      where
        other :
            (i : ℕ)
            → row ≢ i
            → update C.at (row * n + col) (add_term row col x index) (i * n + col)
              ≡ C.at (i * n + col)
        other i ne = update_ne C.at _ (λ q. ne ((cell-injective n row col i col hc hc q).0))
