-- ===== src/MallocMatrix/Compared.antt =====
-- What VERIFY_PARALLEL finds in parallel_dense_mm.c and timed_parallel_dense_mm.c.
use cse422_archive.MallocMatrix.Program.{generate}
use cse422_archive.Base.{
  ℕ, zero, suc, ◌+◌, ◌*◌, ◌/◌, ◌%◌, ◌≤◌, ◌<◌, ◌≡◌, refl, ◌∙◌, ◌↔◌, inl, inr, Bool, true, arith,
  ℕ_discrete, Bool-cases, update,
}
use cse422_archive.Machine.{◌>>=◌, read-ok, write-ok, Done, Done-mono, done, Array}
use cse422_archive.Matrix.Program.{Numbers}
use cse422_archive.MallocMatrix.Checked.{assert_same, generate_four}
use mathlib.Core.Path.{subst}
use native.Mathlib.Nat.{mod-lt, div-add-mod', div-lt_iff_lt-mul}

square_positive : (n k : ℕ) → k < n * n → 0 < n
square_positive zero k h = absurd (omega arith)
square_positive (suc n) k h = omega arith

-- A place of an n by n matrix is that of a row and a column.
pub place :
    (P : ℕ → Type 0) (n : ℕ)
    → ((i j : ℕ) → i < n → j < n → P (i * n + j))
    → (k : ℕ) → k < n * n
    → P k
place P n all k h =
    let positive = square_positive n k h in
    subst P (div-add-mod' k n)
      (all (k / n) (k % n) ((div-lt_iff_lt-mul positive).1 h) (mod-lt k positive))

module _ (N : Numbers) (equal : N.D → N.D → Bool) where
  open N use {D, zero_double}

  -- Within bounds, the loop of `assert` passes exactly when each pair of elements compares equal.
  pub assert_same_iff :
      (rounds : ℕ) (C E : Array D) (index last : ℕ)
      → index + rounds ≡ last
      → last ≤ C.size
      → last ≤ E.size
      → Done
          (λ ok. (ok ≡ true) ↔ ((i : ℕ) → index ≤ i → i < last → equal (C.at i) (E.at i) ≡ true))
          (assert_same N equal rounds C E index)
  unfolding assert_same
  assert_same_iff zero C E index last e c d = (λ _ i a b. absurd (omega arith), λ _. refl)
  assert_same_iff (suc rounds) C E index last e c d =
      rw (read-ok C index (omega arith), read-ok E index (omega arith))
        (elim (Bool-cases (equal (C.at index) (E.at index))) [
          | inl same ↦ rw same (
              Done-mono (assert_same N equal rounds C E (index + 1))
                (assert_same_iff rounds C E (index + 1) last (omega arith) c d)
                λ ok (sound, complete). (
                  λ v i a b. elim (ℕ_discrete index i) [
                    | yes p ↦ subst (λ x. equal (C.at x) (E.at x) ≡ true) p same
                    | no ne ↦ sound v i (omega arith) b
                  ],
                  λ all. complete (λ i a b. all i (omega arith) b),
                ))
          | inr other ↦ rw other (λ v. cc, λ all. cc (all index (omega arith) (omega arith)))
        ])

  -- Elements from `i` on made 0.0, one after another.
  unfoldable pub zeros : ℕ → ℕ → Array D → Array D
  zeros zero i E = E
  zeros (suc rounds) i E = zeros rounds (i + 1) (record E { at = update E.at i zero_double })

  pub zeros-size : (rounds i : ℕ) (E : Array D) → (zeros rounds i E).size ≡ E.size
  unfolding zeros
  zeros-size zero i E = refl
  zeros-size (suc rounds) i E = zeros-size rounds (i + 1) _

  zeros-below : (rounds i j : ℕ) (E : Array D) → j < i → (zeros rounds i E).at j ≡ E.at j
  unfolding zeros
  zeros-below zero i j E h = refl
  zeros-below (suc rounds) i j E h = zeros-below rounds (i + 1) j _ (omega arith) ∙ ground arith

  pub zeros-at :
      (rounds i j : ℕ) (E : Array D)
      → i ≤ j
      → j < i + rounds
      → (zeros rounds i E).at j ≡ zero_double
  unfolding zeros
  zeros-at zero i j E a b = absurd (omega arith)
  zeros-at (suc rounds) i j E a b = elim (ℕ_discrete i j) [
    | yes e ↦ zeros-below rounds (i + 1) j _ (omega arith) ∙ ground arith
    | no ne ↦ zeros-at rounds (i + 1) j _ (omega arith) (omega arith)
  ]

  module _ (rand : ℕ → ℕ) where
    -- The loop that generates four matrices makes the first three as the loop for three does.
    pub generate_four-generate :
        (rounds index last : ℕ) (A B C E : Array D)
        → index + rounds ≡ last
        → last ≤ A.size
        → last ≤ B.size
        → last ≤ C.size
        → last ≤ E.size
        → generate_four N equal rand rounds index A B C E ≡ (
            generate N rand rounds index A B C >>= λ (A, B, C).
            done (A, B, C, zeros rounds index E))
    unfolding generate_four generate zeros
    generate_four-generate zero index last A B C E e a b c d = refl
    generate_four-generate (suc rounds) index last A B C E e a b c d =
        rw
          (
            write-ok A index (N.of_int (rand (2 * index))) (omega arith),
            write-ok B index (N.of_int (rand (2 * index + 1))) (omega arith),
            write-ok C index zero_double (omega arith),
            write-ok E index zero_double (omega arith),
          )
          (generate_four-generate rounds (index + 1) last _ _ _ _ (omega arith) a b c d)
