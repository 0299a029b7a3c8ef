-- ===== src/Sort/Main.antt =====
-- The call of `quicksort` and the check of the order in `main` of labs/lab2/user/sort.c.
use cse422_archive.Sort.Partition.{AllExact}
use cse422_archive.Sort.Exchange.{IsExact}
use mathlib.Core.Path.{subst}
use cse422_archive.Base.{
  ℕ, zero, suc, ◌+◌, ◌^◌, ◌≤◌, ◌<◌, ◌≡◌, refl, sym, ◌∙◌, ◌↔◌, inl, inr, true, none, some, arith,
  dec_lt, ℕ_discrete, Bool-cases, update,
}
use cse422_archive.Machine.{
  read-ok, write-ok, Done, Done-mono, Done-bind, Done-inverse, done, fault, Array, Outcome, ◌>>=◌,
}
use cse422_archive.Sort.Doubles.{Doubles}
use cse422_archive.Sort.Program.{quicksort, fill, verify, main, Exit, sort_done}
use cse422_archive.Sort.Pivot.{partition-past_end}
use cse422_archive.Sort.Order.{quicksort_round, quicksort-Sorted, Sorted}

module _ (F : Doubles) (rand : ℕ → ℕ) where
  open F use {D, of_unsigned, to_unsigned, le}

  -- With `end` the size of the array, as in the call of `main`, `quicksort` of a range that is not
  -- empty reads past the end, whatever `rand` gives.
  pub quicksort-past_end :
      (fuel : ℕ) (A : Array D) (calls start end : ℕ)
      → A.size ≡ end
      → start < end
      → end < 2 ^ 32
      → quicksort F rand (suc fuel) A calls start end ≡ fault
  quicksort-past_end fuel A calls start end e lt word =
      rw (quicksort_round F rand fuel A calls start end lt)
        (rw (partition-past_end F rand start end lt word A calls e))

  -- Within the array's bounds, the check of `VERIFY_CORRECT` passes exactly when each of the
  -- `rounds` elements from `index` on is at most the next one.
  pub verify_iff :
      (rounds : ℕ) (A : Array D) (index : ℕ)
      → index + rounds < A.size
      → (verify F rand rounds A index ≡ done none)
        ↔ ((i : ℕ) → index ≤ i → i < index + rounds → le (A.at i) (A.at (i + 1)) ≡ true)
  unfolding verify
  verify_iff zero A index h = (λ _ i a b. absurd (omega arith), λ _. refl)
  verify_iff (suc rounds) A index h =
      rw (read-ok A index (omega arith), read-ok A (index + 1) (omega arith))
        (elim (Bool-cases (le (A.at index) (A.at (index + 1)))) [
          | inl small ↦ rw small (
              let (sound, complete) = verify_iff rounds A (index + 1) (omega arith) in
              (
                λ v i a b. elim (ℕ_discrete index i) [
                  | yes e ↦ subst (λ x. le (A.at x) (A.at (x + 1)) ≡ true) e small
                  | no ne ↦ sound v i (omega arith) (omega arith)
                ],
                λ all. complete (λ i a b. all i (omega arith) (omega arith)),
              ))
          | inr large ↦ rw large (λ v. cc, λ all. cc (all index (omega arith) (omega arith)))
        ])

  -- Filling the array writes what `rand` gives, keeps the size, and leaves the rest.
  record Filled (A B : Array D) (index last : ℕ) : Type 0 where
    same_size : B.size ≡ A.size
    below : (i : ℕ) → i < index → B.at i ≡ A.at i
    rest : (i : ℕ) → last ≤ i → B.at i ≡ A.at i
    filled : (i : ℕ) → index ≤ i → i < last → (c : ℕ) × (B.at i ≡ of_unsigned (rand c))

  abbrev put : Array D → ℕ → ℕ → Array D
  put A index calls = record A { at = update A.at index (of_unsigned (rand calls)) }

  Filled-put :
      (A B : Array D) (index last calls : ℕ)
      → index < last
      → Filled (put A index calls) B (index + 1) last
      → Filled A B index last
  Filled-put A B index last calls h f = record {
    same_size = f.same_size;
    below = λ i a. f.below i (omega arith) ∙ ground arith;
    rest = λ i a. f.rest i (omega arith) ∙ ground arith;
    filled = λ i a b. elim (ℕ_discrete index i) [
      | yes e ↦ (calls, f.below i (omega arith) ∙ ground arith)
      | no ne ↦ f.filled i (omega arith) b
    ];
  }

  fill-Filled :
      (rounds : ℕ) (A : Array D) (calls index last : ℕ)
      → index + rounds ≡ last
      → last ≤ A.size
      → Done (λ x. Filled A x.0 index last) (fill F rand rounds A calls index)
  unfolding fill
  fill-Filled zero A calls index last e h = record {
    same_size = refl;
    below = λ i a. refl;
    rest = λ i a. refl;
    filled = λ i a b. absurd (omega arith);
  }
  fill-Filled (suc rounds) A calls index last e h =
      rw (write-ok A index (of_unsigned (rand calls)) (omega arith)) (
        Done-mono (fill F rand rounds (put A index calls) (calls + 1) (index + 1))
          (fill-Filled rounds (put A index calls) (calls + 1) (index + 1) last (omega arith) h)
          λ x f. Filled-put A x.0 index last calls (omega arith) f)

  -- Filling and sorting exactly as many doubles as the array has, at least one and fewer than 2^32,
  -- reads past the array's end, whatever comes after it and whatever `rand` gives.
  pub sort_random-past_end :
      {X : Type 0} (fuel n : ℕ) (A : Array D) (next : Array D × ℕ → Outcome X)
      → A.size ≡ n
      → 0 < n
      → n < 2 ^ 32
      → (fill F rand n A 0 0 >>= λ (A, calls). quicksort F rand (suc fuel) A calls 0 n >>= next)
        ≡ fault
  sort_random-past_end fuel n A next e positive word =
      let (x, ran, f) =
        Done-inverse (λ x. Filled A x.0 0 n) (fill F rand n A 0 0)
          (fill-Filled n A 0 0 n (omega arith) (omega arith)) in
      rw ran (rw (quicksort-past_end fuel x.0 x.1 0 n (f.same_size ∙ e) positive word))

  -- `main` on an array of exactly as many doubles as its argument says, at least one and fewer
  -- than 2^32, reads past the array's end, whatever `rand` gives.
  pub main-past_end :
      (fuel n : ℕ) (A : Array D)
      → A.size ≡ n
      → 0 < n
      → n < 2 ^ 32
      → main F rand (suc fuel) 2 n true (some A) ≡ fault
  unfolding main
  main-past_end fuel n A e positive word = sort_random-past_end fuel n A _ e positive word

  Filled-exact :
      (n : ℕ) (A B : Array D)
      → Filled A B 0 n
      → ((c : ℕ) → IsExact F rand (of_unsigned (rand c)))
      → IsExact F rand (A.at n)
      → AllExact F rand 0 n B
  Filled-exact n A B f exact extra i a b = elim (dec_lt i n) [
    | yes lt ↦ let (c, e) = f.filled i a lt in subst (IsExact F rand) (sym e) (exact c)
    | no ge ↦
        subst (λ x. IsExact F rand (B.at x)) (last ge)
          (subst (IsExact F rand) (sym (f.rest n (omega arith))) extra)
  ]
    where
      last : ¬ (i < n) → n ≡ i
      last h = omega arith

  -- The array in order from its first element to the one at `n`.
  abbrev pub InOrder : ℕ → Array D → Type 0
  InOrder n B = (i : ℕ) → i < n → le (B.at i) (B.at (i + 1)) ≡ true

  -- Filling and sorting n doubles, with room for one more, with more fuel than elements, fewer than
  -- 2^32 of them, over replies of `rand` that a trip through `unsigned` gives back, leaves every
  -- element up to the extra one in order, for whatever comes after it.
  pub sort_random-InOrder :
      {X : Type 0} (P : X → Type 0) (fuel n : ℕ) (A : Array D) (next : Array D × ℕ → Outcome X)
      → n < A.size
      → n < 2 ^ 32
      → n < fuel
      → ((c : ℕ) → IsExact F rand (of_unsigned (rand c)))
      → IsExact F rand (A.at n)
      → ((y : Array D × ℕ) → n < y.0.size → InOrder n y.0 → Done P (next y))
      → Done P (fill F rand n A 0 0 >>= λ (A, calls). quicksort F rand fuel A calls 0 n >>= next)
  sort_random-InOrder P fuel n A next fits word enough exact extra after =
      let (x, ran, f) =
        Done-inverse (λ x. Filled A x.0 0 n) (fill F rand n A 0 0)
          (fill-Filled n A 0 0 n (omega arith) (omega arith)) in
      rw ran (
        Done-bind (λ y. Sorted F rand 0 n x.0 y.0) P (quicksort F rand fuel x.0 x.1 0 n) next
          (quicksort-Sorted F rand fuel x.0 x.1 0 n (omega arith) (omega (arith, f.same_size)) word
            (Filled-exact n A x.0 f exact extra))
          λ y s.
            after y (omega (arith, s.rearranged.same_size, f.same_size))
              (λ i b. s.ordered i (omega arith) b))

  -- What `main` leaves: the array, in order from its first element to the one at `n`.
  abbrev pub Finished : ℕ → Exit D → Type 0
  Finished n (sort_done B) = InOrder n B
  Finished n _ = ⊥

  -- `main` with room for one more double, with more fuel than elements, fewer than 2^32 of them,
  -- over replies of `rand` that a trip through `unsigned` gives back, ends with every element up
  -- to the extra one in order.
  pub main-Finished :
      (fuel n : ℕ) (A : Array D)
      → n < A.size
      → n < 2 ^ 32
      → n < fuel
      → ((c : ℕ) → IsExact F rand (of_unsigned (rand c)))
      → IsExact F rand (A.at n)
      → Done (Finished n) (main F rand fuel 2 n true (some A))
  unfolding main
  main-Finished fuel n A fits word enough exact extra =
      sort_random-InOrder (Finished n) fuel n A _ fits word enough exact extra (λ y room s. s)
