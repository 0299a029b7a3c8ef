-- ===== src/Sort/Order.antt =====
-- `quicksort` of labs/lab2/user/sort.c sorts a range of exact values that lies within bounds.
use cse422_archive.Sort.Program.{partition, quicksort}
use cse422_archive.Sort.Partition.{AllExact, AllExact-Rearranged}
use mathlib.Core.Path.{subst}
use native.Mathlib.Nat.{le_refl}
use cse422_archive.Base.{
  ℕ, zero, suc, ◌+◌, ◌-◌, ◌^◌, ◌≤◌, ◌<◌, ◌≡◌, refl, sym, ◌∙◌, inl, inr, true, false, arith, dec_lt,
  ltb, ltb→lt, lt→ltb, Bool-cases,
}
use cse422_archive.Machine.{◌>>=◌, Done, Done-mono, Done-bind, Outcome, done, Array}
use cse422_archive.Sort.Doubles.{Doubles}
use cse422_archive.Sort.Exchange.{Rearranged-refl, Rearranged-trans, Rearranged-widen, Rearranged}
use cse422_archive.Sort.Pivot.{partition-Partitioned, Partitioned}

module _ (F : Doubles) (rand : ℕ → ℕ) where
  open F use {D, le}

  -- `B` is `A` rearranged from `start` up to `end`, in order there.
  pub record Sorted (start end : ℕ) (A B : Array D) : Type 0 where
    pub rearranged : Rearranged start end A B
    pub ordered : (i : ℕ) → start ≤ i → i < end → le (B.at i) (B.at (i + 1)) ≡ true

  -- The part from `lo` up to but without `hi` has been sorted, within a range.
  record Part (start end lo hi : ℕ) (B C : Array D) : Type 0 where
    within : Rearranged start end B C
    below : (i : ℕ) → i < lo → C.at i ≡ B.at i
    above : (i : ℕ) → hi ≤ i → C.at i ≡ B.at i
    from : (i : ℕ) → lo ≤ i → i < hi → (j : ℕ) × (lo ≤ j) × (j < hi) × (C.at i ≡ B.at j)
    ordered : (i : ℕ) → lo ≤ i → i + 1 < hi → le (C.at i) (C.at (i + 1)) ≡ true

  Part-of_Sorted :
      (start end lo last hi : ℕ) {B C : Array D}
      → hi ≡ last + 1
      → start ≤ lo
      → last ≤ end
      → Sorted lo last B C
      → Part start end lo hi B C
  Part-of_Sorted start end lo last hi e a b s = record {
    within = Rearranged-widen start end a b s.rearranged;
    below = s.rearranged.below;
    above = λ i h. s.rearranged.above i (omega arith);
    from =
        λ i h k. let (j, x, y, p) = s.rearranged.from i h (omega arith) in (j, x, omega arith, p);
    ordered = λ i h k. s.ordered i h (omega arith);
  }

  Part-empty : (start end lo hi : ℕ) (B : Array D) → hi ≤ lo + 1 → Part start end lo hi B B
  Part-empty start end lo hi B h = record {
    within = Rearranged-refl start end B;
    below = λ i _. refl;
    above = λ i _. refl;
    from = λ i a b. (i, a, b, refl);
    ordered = λ i a b. absurd (omega arith);
  }

  -- Sorting the two parts on the sides of the pivot sorts the range.
  join :
      {start end t : ℕ} {A B C E : Array D}
      → Partitioned F rand start end A B t
      → Part start end start t B C
      → Part start end (t + 1) (end + 1) C E
      → Sorted start end A E
  join {start} {end} {t} {A} {B} {C} {E} p l r = record {
    rearranged = Rearranged-trans p.rearranged (Rearranged-trans l.within r.within);
    ordered = in_order;
  }
    where
      pivot_stays : E.at t ≡ B.at t
      pivot_stays = r.below t (omega arith) ∙ l.above t (omega arith)

      left_end : (i : ℕ) → start ≤ i → i < t → le (E.at i) (E.at t) ≡ true
      left_end i a b =
          let (j, x, y, e) = l.from i a b in
          rw (pivot_stays, r.below i (omega arith), e) (p.low j x y)

      right_start : (i : ℕ) → t < i → i ≤ end → le (E.at t) (E.at i) ≡ true
      right_start i a b =
          let (j, x, y, e) = r.from i (omega arith) (omega arith) in
          rw (pivot_stays, e, l.above j (omega arith)) (p.high j (omega arith) (omega arith))

      left_order : (i : ℕ) → start ≤ i → i + 1 < t → le (E.at i) (E.at (i + 1)) ≡ true
      left_order i a b =
          rw (r.below i (omega arith), r.below (i + 1) (omega arith)) (l.ordered i a b)

      at_left : (i : ℕ) → start ≤ i → i + 1 ≡ t → le (E.at i) (E.at (i + 1)) ≡ true
      at_left i a e = rw e (left_end i a (omega arith))

      at_right : (i : ℕ) → i ≡ t → i < end → le (E.at i) (E.at (i + 1)) ≡ true
      at_right i e b =
          subst (λ x. le (E.at x) (E.at (i + 1)) ≡ true) (sym e)
            (right_start (i + 1) (omega arith) (omega arith))

      in_order : (i : ℕ) → start ≤ i → i < end → le (E.at i) (E.at (i + 1)) ≡ true
      in_order i a b = elim (dec_lt (i + 1) t) [
        | yes left ↦ left_order i a left
        | no ge ↦ elim (dec_lt i t) [
          | yes edge ↦ at_left i a (omega arith)
          | no ge' ↦ elim (dec_lt t i) [
            | yes right ↦ r.ordered i (omega arith) (omega arith)
            | no ge'' ↦ at_right i (omega arith) b
          ]
        ]
      ]

  -- The two recursive calls, under their tests.
  unfoldable pub sort_left : ℕ → Array D → ℕ → ℕ → ℕ → Outcome (Array D × ℕ)
  sort_left fuel A calls start pivot = elim (ltb start pivot) [
    | true ↦ quicksort F rand fuel A calls start (pivot - 1)
    | false ↦ done (A, calls)
  ]

  unfoldable pub sort_right : ℕ → Array D → ℕ → ℕ → ℕ → Outcome (Array D × ℕ)
  sort_right fuel A calls pivot end = elim (ltb pivot end) [
    | true ↦ quicksort F rand fuel A calls (pivot + 1) end
    | false ↦ done (A, calls)
  ]

  pub quicksort_round :
      (fuel : ℕ) (A : Array D) (calls start end : ℕ)
      → start < end
      → quicksort F rand (suc fuel) A calls start end ≡ (
          partition F rand A calls start end >>= λ x.
          sort_left fuel x.0 x.1 start x.2 >>= λ y. sort_right fuel y.0 y.1 x.2 end)
  unfolding quicksort sort_left sort_right
  quicksort_round fuel A calls start end h = rw (lt→ltb start end h, quicksort)

  quicksort_stop :
      (fuel : ℕ) (A : Array D) (calls start end : ℕ)
      → ¬ (start < end)
      → quicksort F rand (suc fuel) A calls start end ≡ done (A, calls)
  unfolding quicksort
  quicksort_stop fuel A calls start end h = ground arith

  module _ (fuel : ℕ) (B : Array D) (calls a b : ℕ) where
    sort_left-more :
        ltb a b ≡ true → sort_left fuel B calls a b ≡ quicksort F rand fuel B calls a (b - 1)
    unfolding sort_left
    sort_left-more h = rw (h, sort_left)

    sort_left-none : ltb a b ≡ false → sort_left fuel B calls a b ≡ done (B, calls)
    unfolding sort_left
    sort_left-none h = rw (h, sort_left)

    sort_right-more :
        ltb a b ≡ true → sort_right fuel B calls a b ≡ quicksort F rand fuel B calls (a + 1) b
    unfolding sort_right
    sort_right-more h = rw (h, sort_right)

    sort_right-none : ltb a b ≡ false → sort_right fuel B calls a b ≡ done (B, calls)
    unfolding sort_right
    sort_right-none h = rw (h, sort_right)

  sort_left-Part :
      (fuel : ℕ) (B : Array D) (calls start end pivot : ℕ)
      → pivot ≤ end
      → (start < pivot
          → Done
              (λ x. Sorted start (pivot - 1) B x.0)
              (quicksort F rand fuel B calls start (pivot - 1)))
      → Done (λ y. Part start end start pivot B y.0) (sort_left fuel B calls start pivot)
  sort_left-Part fuel B calls start end pivot h ih = elim (Bool-cases (ltb start pivot)) [
    | inl lt ↦ rw (sort_left-more fuel B calls start pivot lt) (
        Done-mono (quicksort F rand fuel B calls start (pivot - 1)) (ih (ltb→lt start pivot lt))
          λ x s.
            Part-of_Sorted start end start (pivot - 1) pivot (ground arith) (le_refl start)
              (omega arith) s)
    | inr ge ↦
        rw (sort_left-none fuel B calls start pivot ge)
          (Part-empty start end start pivot B (ground arith))
  ]

  sort_right-Part :
      (fuel : ℕ) (B : Array D) (calls start end pivot : ℕ)
      → start ≤ pivot
      → (pivot < end
          → Done
              (λ x. Sorted (pivot + 1) end B x.0)
              (quicksort F rand fuel B calls (pivot + 1) end))
      → Done (λ y. Part start end (pivot + 1) (end + 1) B y.0) (sort_right fuel B calls pivot end)
  sort_right-Part fuel B calls start end pivot h ih = elim (Bool-cases (ltb pivot end)) [
    | inl lt ↦ rw (sort_right-more fuel B calls pivot end lt) (
        Done-mono (quicksort F rand fuel B calls (pivot + 1) end) (ih (ltb→lt pivot end lt)) λ x s.
          Part-of_Sorted start end (pivot + 1) end (end + 1) refl (omega arith) (le_refl end) s)
    | inr ge ↦
        rw (sort_right-none fuel B calls pivot end ge)
          (Part-empty start end (pivot + 1) (end + 1) B (ground arith))
  ]

  AllExact-narrow :
      {lo hi : ℕ} (a b : ℕ) (A : Array D)
      → lo ≤ a
      → b ≤ hi
      → AllExact F rand lo hi A
      → AllExact F rand a b A
  AllExact-narrow a b A ha hb exact i h k = exact i (omega arith) (omega arith)

  -- With more fuel than the range is long, within bounds, below 2^32 and over exact values,
  -- `quicksort` returns: it has rearranged the elements from `start` up to `end`, both included,
  -- into order, and has left every other element alone.
  pub quicksort-Sorted :
      (fuel : ℕ) (A : Array D) (calls start end : ℕ)
      → end - start < fuel
      → end < A.size
      → end < 2 ^ 32
      → AllExact F rand start end A
      → Done (λ x. Sorted start end A x.0) (quicksort F rand fuel A calls start end)
  quicksort-Sorted zero A calls start end enough fits word exact = elim enough [ ]
  quicksort-Sorted (suc fuel) A calls start end enough fits word exact = elim (dec_lt start end) [
    | yes lt ↦ rw (quicksort_round fuel A calls start end lt) (
        Done-bind (λ x. Partitioned F rand start end A x.0 x.2) _
          (partition F rand A calls start end) _
          (partition-Partitioned F rand start end lt word A calls fits exact)
          λ x p.
            let exact' = AllExact-Rearranged F rand p.rearranged exact in
            Done-bind (λ y. Part start end start x.2 x.0 y.0) _ (sort_left fuel x.0 x.1 start x.2) _
              (sort_left-Part fuel x.0 x.1 start end x.2 p.bounds.1 λ more.
                quicksort-Sorted fuel x.0 x.1 start (x.2 - 1) (omega (arith, p.bounds))
                  (omega (arith, p.bounds, p.rearranged.same_size)) (omega (arith, p.bounds))
                  (AllExact-narrow start (x.2 - 1) x.0 (le_refl start) (omega (arith, p.bounds))
                    exact'))
              λ y l.
                Done-mono (sort_right fuel y.0 y.1 x.2 end)
                  (sort_right-Part fuel y.0 y.1 start end x.2 p.bounds.0 λ more.
                    quicksort-Sorted fuel y.0 y.1 (x.2 + 1) end (omega (arith, p.bounds))
                      (omega (arith, p.rearranged.same_size, l.within.same_size)) word
                      (AllExact-narrow (x.2 + 1) end y.0 (omega (arith, p.bounds)) (le_refl end)
                        (AllExact-Rearranged F rand l.within exact')))
                  (λ z r. join p l r))
    | no ge ↦ rw (quicksort_stop fuel A calls start end ge) (record {
      rearranged = Rearranged-refl start end A;
      ordered = λ i a b. absurd (omega arith);
    })
  ]
