-- ===== src/Sort/Pivot.antt =====
-- The whole of `partition` in labs/lab2/user/sort.c, from the choice of the pivot to its place.
use cse422_archive.Sort.Program.{swap, partition_loop, partition}
use cse422_archive.Base.{ℕ, ◌+◌, ◌-◌, ◌%◌, ◌^◌, ◌≤◌, ◌<◌, ◌≡◌, refl, true, false, arith, ◌==◌}
use cse422_archive.Machine.{read-ok, read-fault, Done, Done-bind, fault, Array}
use cse422_archive.Sort.Doubles.{Doubles}
use cse422_archive.Sort.Exchange.{
  exchange, Rearranged-trans, exchange-Rearranged, swap-exchange, Rearranged,
}
use cse422_archive.Sort.Partition.{AllExact, AllExact-Rearranged, partition_loop-Looped, Looped}

module _ (F : Doubles) (rand : ℕ → ℕ) where
  open F use {D, of_unsigned, to_unsigned, le}

  pub record Partitioned (start end : ℕ) (A B : Array D) (t : ℕ) : Type 0 where
    pub bounds : (start ≤ t) × (t ≤ end)
    pub rearranged : Rearranged start end A B
    pub low : (i : ℕ) → start ≤ i → i < t → le (B.at i) (B.at t) ≡ true
    pub high : (i : ℕ) → t < i → i ≤ end → le (B.at t) (B.at i) ≡ true

  Partitioned-after :
      {start end t : ℕ} {A B C : Array D}
      → Rearranged start end A B
      → Partitioned start end B C t
      → Partitioned start end A C t
  Partitioned-after p q = record {
    bounds = q.bounds;
    rearranged = Rearranged-trans p q.rearranged;
    low = q.low;
    high = q.high;
  }

  module _ (start end : ℕ) (lt : start < end) (word : end < 2 ^ 32) where
    range-eq : (end + 2 ^ 32 - start) % 2 ^ 32 ≡ end - start
    range-eq = omega arith

    abbrev pivot_of : ℕ → ℕ
    pivot_of n = (n % (end - start) + start) % 2 ^ 32

    pivot_bounds : (n : ℕ) → (start ≤ pivot_of n) × (pivot_of n < end)
    pivot_bounds n = omega arith

    -- The last exchange puts the pivot between the two parts.
    placed :
        (A B : Array D) (t : ℕ)
        → end < A.size
        → AllExact F rand start end A
        → Looped F rand start end (A.at end) A B t
        → Partitioned start end A (exchange B t end) t
    placed A B t fits exact l = record {
      bounds = l.bounds;
      rearranged = Rearranged-trans l.rearranged (
          exchange-Rearranged B start end t end l.bounds.0 l.bounds.1 (omega arith) (omega arith)
            (omega (arith, l.rearranged.same_size)));
      low = λ i a b. ground (arith, l.divided.low i, l.last);
      high = λ i a b. ground (
        arith,
        l.divided.high i,
        l.divided.high t,
        l.last,
        F.total (B.at i) (B.at end) (still i (omega (arith, l.bounds)) b)
            (still end (omega arith) (omega arith)),
        F.total (B.at t) (B.at end) (still t l.bounds.0 l.bounds.1)
            (still end (omega arith) (omega arith)),
      );
    }
      where
        still : AllExact F rand start end B
        still = AllExact-Rearranged F rand l.rearranged exact

    -- With `end` the size of the array the first exchange reads past the end.
    pub partition-past_end :
        (A : Array D) (calls : ℕ) → A.size ≡ end → partition F rand A calls start end ≡ fault
    unfolding partition swap
    partition-past_end A calls e =
        rw (range-eq, nonzero)
          (rw (read-ok A (pivot_of (rand calls)) (omega (arith, pivot_bounds (rand calls))))
            (rw (read-fault A end (omega arith))))
      where
        nonzero : (end - start == 0) ≡ false
        nonzero = ground arith

    -- For a range of at least two places, in bounds, below 2^32 and over exact values, `partition`
    -- returns the place of a pivot that splits the range: no element before it is greater, none
    -- behind it is less, and the range is rearranged.
    pub partition-Partitioned :
        (A : Array D) (calls : ℕ)
        → end < A.size
        → AllExact F rand start end A
        → Done (λ x. Partitioned start end A x.0 x.2) (partition F rand A calls start end)
    unfolding partition
    partition-Partitioned A calls fits exact =
        rw (range-eq, nonzero)
          (rw
            (swap-exchange F rand A pivot end (omega (arith, pivot-lt)) fits
              (exact pivot (pivot_bounds (rand calls)).0 (omega (arith, pivot-lt))))
            (rw (read-ok A' end fits) (
              Done-bind (λ x. Looped F rand start end (A'.at end) A' x.0 x.1) _
                (partition_loop F rand (end - start) A' (to_unsigned (A'.at end)) start start) _
                (partition_loop-Looped F rand start end (to_unsigned (A'.at end)) (A'.at end)
                  (exact' end (omega arith) (omega arith)) word (end - start) start start A'
                  (omega arith) (omega arith) (omega arith) fits exact' refl
                  (record {
                    low = λ i a b. absurd (omega arith);
                    high = λ i a b. absurd (omega arith);
                  }))
                (λ x l.
                  rw
                    (swap-exchange F rand x.0 x.1 end
                      (omega (arith, l.bounds, l.rearranged.same_size))
                      (omega (arith, l.rearranged.same_size))
                      (AllExact-Rearranged F rand l.rearranged exact' x.1 l.bounds.0 l.bounds.1))
                    (Partitioned-after chosen (placed A' x.0 x.1 fits exact' l))))))
      where
        nonzero : (end - start == 0) ≡ false
        nonzero = ground arith

        pivot : ℕ
        pivot = pivot_of (rand calls)

        pivot-lt : pivot < end
        pivot-lt = (pivot_bounds (rand calls)).1

        A' : Array D
        A' = exchange A pivot end

        chosen : Rearranged start end A A'
        chosen =
            exchange-Rearranged A start end pivot end (pivot_bounds (rand calls)).0
              (omega (arith, pivot-lt)) (omega arith) (omega arith) fits

        exact' : AllExact F rand start end A'
        exact' = AllExact-Rearranged F rand chosen exact
