-- ===== src/MallocMatrix/Generated.antt =====
-- What user_space/test_programs/dense_mm.c computes.
use cse422_archive.MallocMatrix.Program.{squared, generate, main}
use mathlib.Core.Path.{subst}
use native.Mathlib.Nat.{mod-eq_of_lt}
use cse422_archive.Matrix.Program.{sqrt_of_uint32_max, row_loop, Ending, multiplied, Numbers}
use cse422_archive.Matrix.Product.{row_bound, entry, Multiplied, row_loop-Multiplied}
use cse422_archive.Matrix.Main.{square_bound}
use cse422_archive.Machine.{write-ok, Done, Done-mono, Done-bind, Array}
use cse422_archive.Base.{
  ℕ, zero, suc, ◌+◌, ◌*◌, ◌≤◌, ◌<◌, ◌≡◌, refl, ap, ◌∙◌, false, some, arith, ℕ_discrete, ltb, update,
  update_self,
}

module _ (N : Numbers) (rand : ℕ → ℕ) where
  open N use {D, zero_double, of_int}

  -- The three matrices that are generated, from `index` up to `last`.
  pub record Generated (A B C : Array D) (index last : ℕ) (x : Array D × Array D × Array D)
      : Type 0 where
    pub size_a : x.0.size ≡ A.size
    pub size_b : x.1.size ≡ B.size
    pub size_c : x.2.size ≡ C.size
    pub first : (i : ℕ) → index ≤ i → i < last → x.0.at i ≡ of_int (rand (2 * i))
    pub second : (i : ℕ) → index ≤ i → i < last → x.1.at i ≡ of_int (rand (2 * i + 1))
    pub third : (i : ℕ) → index ≤ i → i < last → x.2.at i ≡ zero_double
    pub earlier :
        (i : ℕ) → i < index → (x.0.at i ≡ A.at i) × (x.1.at i ≡ B.at i) × (x.2.at i ≡ C.at i)

  pub generate-Generated :
      (rounds index last : ℕ) (A B C : Array D)
      → index + rounds ≡ last
      → last ≤ A.size
      → last ≤ B.size
      → last ≤ C.size
      → Done (Generated A B C index last) (generate N rand rounds index A B C)
  unfolding generate
  generate-Generated zero index last A B C e a b c = record {
    size_a = refl;
    size_b = refl;
    size_c = refl;
    first = λ i l m. absurd (omega arith);
    second = λ i l m. absurd (omega arith);
    third = λ i l m. absurd (omega arith);
    earlier = λ i l. (refl, refl, refl);
  }
  generate-Generated (suc rounds) index last A B C e a b c =
      rw
        (
          write-ok A index (of_int (rand (2 * index))) (omega arith),
          write-ok B index (of_int (rand (2 * index + 1))) (omega arith),
          write-ok C index zero_double (omega arith),
        )
        (Done-mono (generate N rand rounds (index + 1) A' B' C')
          (generate-Generated rounds (index + 1) last A' B' C' (omega arith) a b c)
          λ x g. record {
            size_a = g.size_a;
            size_b = g.size_b;
            size_c = g.size_c;
            first = λ i l m.
                from_here (λ k. x.0.at k ≡ of_int (rand (2 * k)))
                  (here x.0 A index (of_int (rand (2 * index))) ((g.earlier index (omega arith)).0))
                  g.first i l m;
            second = λ i l m.
                from_here (λ k. x.1.at k ≡ of_int (rand (2 * k + 1)))
                  (here x.1 B index (of_int (rand (2 * index + 1)))
                    ((g.earlier index (omega arith)).1))
                  g.second i l m;
            third = λ i l m.
                from_here (λ k. x.2.at k ≡ zero_double)
                  (here x.2 C index zero_double ((g.earlier index (omega arith)).2)) g.third i l m;
            earlier = λ i l.
                let h = g.earlier i (omega arith) in
                (
                  h.0 ∙ before A index i _ l,
                  h.1 ∙ before B index i _ l,
                  h.2 ∙ before C index i _ l,
                );
          })
    where
      put : Array D → D → Array D
      put X v = record X { at = update X.at index v }

      A' : Array D
      A' = put A (of_int (rand (2 * index)))

      B' : Array D
      B' = put B (of_int (rand (2 * index + 1)))

      C' : Array D
      C' = put C zero_double

      here : (X Y : Array D) (k : ℕ) (v : D) → X.at k ≡ update Y.at k v k → X.at k ≡ v
      here X Y k v e = e ∙ update_self Y.at k v

      before : (X : Array D) (k i : ℕ) (v : D) → i < k → update X.at k v i ≡ X.at i
      before X k i v l = ground arith

      from_here :
          (P : ℕ → Type 0)
          → P index
          → ((i : ℕ) → index + 1 ≤ i → i < last → P i)
          → (i : ℕ) → index ≤ i
          → i < last
          → P i
      from_here P p rest i l m = elim (ℕ_discrete index i) [
        | yes q ↦ subst P q p
        | no ne ↦ rest i (omega arith) m
      ]

  -- The matrices as the replies of `rand` make them.
  abbrev pub first_matrix : ℕ → Array D
  first_matrix n = record { size = n * n; at = λ i. of_int (rand (2 * i)) }

  abbrev pub second_matrix : ℕ → Array D
  second_matrix n = record { size = n * n; at = λ i. of_int (rand (2 * i + 1)) }

  module _ (A B : Array D) (n : ℕ) (same_a : (i : ℕ) → i < n * n → A.at i ≡ of_int (rand (2 * i)))
      (same_b : (i : ℕ) → i < n * n → B.at i ≡ of_int (rand (2 * i + 1))) where
    -- An entry of the product depends on the entries of the matrices alone.
    pub entry-same :
        (rounds row col index : ℕ) (x : D)
        → row < n
        → col < n
        → index + rounds ≤ n
        → entry N A B n rounds row col index x
          ≡ entry N (first_matrix n) (second_matrix n) n rounds row col index x
    unfolding entry
    entry-same zero row col index x hr hc e = refl
    entry-same (suc rounds) row col index x hr hc e =
        rw
          (
            same_a (row * n + index) (omega (arith, row_bound n row hr)),
            same_b (index * n + col) (omega (arith, row_bound n index (omega arith))),
          )
          (entry-same rounds row col (index + 1) _ hr hc (omega arith))

  -- An entry of the product of matrices that have been generated.
  pub Generated-entry :
      (n : ℕ) (A B C : Array D) (x : Array D × Array D × Array D)
      → Generated A B C 0 (n * n) x
      → (i j : ℕ) → i < n
      → j < n
      → entry N x.0 x.1 n n i j 0 (x.2.at (i * n + j))
        ≡ entry N (first_matrix n) (second_matrix n) n n i j 0 zero_double
  Generated-entry n A B C x g i j hi hj =
      ap (entry N x.0 x.1 n n i j 0)
        (g.third (i * n + j) (omega arith) (omega (arith, row_bound n i hi)))
      ∙ entry-same x.0 x.1 n (λ k l. g.first k (omega arith) l) (λ k l. g.second k (omega arith) l)
          n i j 0 zero_double hi hj (omega arith)

  -- The program ends with the product of the two random matrices in the third.
  abbrev pub RandomProduct : ℕ → Ending D → Type 0
  RandomProduct n (multiplied E) =
      (i j : ℕ)
      → i < n
      → j < n
      → E.at (i * n + j) ≡ entry N (first_matrix n) (second_matrix n) n n i j 0 zero_double
  RandomProduct n _ = ⊥

  pub squared-eq : (n : ℕ) → n < 65536 → squared n ≡ n * n
  squared-eq n h = mod-eq_of_lt (square_bound N n h)

  -- For a size n below 65536 and three replies of `malloc` with room for n*n doubles, `main` makes no
  -- access out of bounds, and each entry of the third matrix is 0.0 with the products of the first's
  -- row and the second's column added in order, where the two are filled in turn by `rand`.
  pub main-RandomProduct :
      (n : ℕ) (A B C : Array D)
      → n < 65536
      → n * n ≤ A.size
      → n * n ≤ B.size
      → n * n ≤ C.size
      → Done (RandomProduct n) (main N rand 2 n (some A) (some B) (some C))
  unfolding main
  main-RandomProduct n A B C small a b c =
      rw (in_range, squared-eq n small)
        (Done-bind (Generated A B C 0 (n * n)) (RandomProduct n) (generate N rand (n * n) 0 A B C) _
          (generate-Generated (n * n) 0 (n * n) A B C (omega arith) a b c)
          λ (A', B', C') g.
            let fa : n * n ≤ A'.size = omega (arith, g.size_a, a) in
            let fb : n * n ≤ B'.size = omega (arith, g.size_b, b) in
            let w = square_bound N n small in
            Done-bind (Multiplied N A' B' n w fa fb 0 C') (RandomProduct n)
              (row_loop N A' B' n n 0 C') _
              (row_loop-Multiplied N A' B' n w fa fb n 0 C' (omega arith)
                (omega (arith, g.size_c, c)))
              λ E h i j x y.
                h.1 i j (omega arith) x y ∙ Generated-entry n A B C (A', B', C') g i j x y)
    where
      in_range : ltb sqrt_of_uint32_max n ≡ false
      in_range = ground arith
