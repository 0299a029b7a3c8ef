-- ===== src/Sort/Partition.antt =====
-- `partition` of labs/lab2/user/sort.c divides a range of exact values at its pivot.
use cse422_archive.Base.{
  ℕ, zero, suc, ◌+◌, ◌%◌, ◌^◌, ◌≤◌, ◌<◌, ◌≡◌, sym, inl, inr, true, false, arith, Bool-cases,
}
use cse422_archive.Machine.{read-ok, Done, Done-mono, Array}
use cse422_archive.Sort.Doubles.{Doubles}
use cse422_archive.Sort.Program.{partition_loop}
use cse422_archive.Sort.Exchange.{
  exchange, Rearranged-refl, Rearranged-trans, exchange-Rearranged, IsExact, swap-exchange,
  Rearranged,
}
use mathlib.Core.Path.{subst}

module _ (F : Doubles) (rand : ℕ → ℕ) where
  open F use {D, of_unsigned, to_unsigned, le}

  abbrev pub AllExact : ℕ → ℕ → Array D → Type 0
  AllExact lo hi A = (i : ℕ) → lo ≤ i → i ≤ hi → IsExact F rand (A.at i)

  pub AllExact-Rearranged :
      {lo hi : ℕ} {A B : Array D} → Rearranged lo hi A B → AllExact lo hi A → AllExact lo hi B
  AllExact-Rearranged {A} p exact i h k =
      let (j, hj, kj, e) = p.from i h k in subst (IsExact F rand) (sym e) (exact j hj kj)

  -- The loop between its rounds: below `target` at most the pivot, up to `index` above it.
  pub record Divided (start target index : ℕ) (d : D) (A : Array D) : Type 0 where
    pub low : (i : ℕ) → start ≤ i → i < target → le (A.at i) d ≡ true
    pub high : (i : ℕ) → target ≤ i → i < index → le (A.at i) d ≡ false

  Divided-keep :
      (start target index : ℕ) (d : D) (A : Array D)
      → le (A.at index) d ≡ false
      → Divided start target index d A
      → Divided start target (index + 1) d A
  Divided-keep start target index d A large div = record {
    low = div.low;
    high = λ i a b. ground (arith, div.high i);
  }

  Divided-exchange :
      (start target index : ℕ) (d : D) (A : Array D)
      → start ≤ target
      → target ≤ index
      → le (A.at index) d ≡ true
      → Divided start target index d A
      → Divided start (target + 1) (index + 1) d (exchange A target index)
  Divided-exchange start target index d A h k small div = record {
    low = λ i a b. ground (arith, div.low i);
    high = λ i a b. ground (arith, div.high i, div.high target);
  }

  -- What the loop leaves.
  pub record Looped (start end : ℕ) (d : D) (A : Array D) (B : Array D) (t : ℕ) : Type 0 where
    pub bounds : (start ≤ t) × (t ≤ end)
    pub rearranged : Rearranged start end A B
    pub last : B.at end ≡ d
    pub divided : Divided start t end d B

  Looped-after :
      {start end t : ℕ} {d : D} {A B C : Array D}
      → Rearranged start end A B
      → Looped start end d B C t
      → Looped start end d A C t
  Looped-after p l = record {
    bounds = l.bounds;
    rearranged = Rearranged-trans p l.rearranged;
    last = l.last;
    divided = l.divided;
  }

  module _ (start end pivot_val : ℕ) (d : D) (pv : of_unsigned pivot_val ≡ d)
      (word : end < 2 ^ 32) where
    wrap : (target : ℕ) → target < end → (target + 1) % 2 ^ 32 ≡ target + 1
    wrap target h = omega arith

    moved :
        (target index : ℕ) (A : Array D)
        → start ≤ target
        → target ≤ index
        → index < end
        → end < A.size
        → Rearranged start end A (exchange A target index)
    moved target index A h k e fits =
        exchange-Rearranged A start end target index h (omega arith) (omega arith) (omega arith)
          fits

    pub partition_loop-Looped :
        (rounds target index : ℕ) (A : Array D)
        → index + rounds ≡ end
        → start ≤ target
        → target ≤ index
        → end < A.size
        → AllExact start end A
        → A.at end ≡ d
        → Divided start target index d A
        → Done
            (λ x. Looped start end d A x.0 x.1)
            (partition_loop F rand rounds A pivot_val target index)
    unfolding partition_loop
    partition_loop-Looped zero target index A e h k fits exact last div = record {
      bounds = (h, omega arith);
      rearranged = Rearranged-refl start end A;
      last = last;
      divided = record { low = div.low; high = λ i a b. div.high i a (omega arith) };
    }
    partition_loop-Looped (suc rounds) target index A e h k fits exact last div =
        rw (read-ok A index (omega arith), pv)
          (elim (Bool-cases (le (A.at index) d)) [
            | inl small ↦ rw small (
                rw
                  (
                    swap-exchange F rand A target index (omega arith) (omega arith)
                        (exact target h (omega arith)),
                    wrap target (omega arith),
                  )
                  (Done-mono
                    (partition_loop F rand rounds (exchange A target index) pivot_val (target + 1)
                      (index + 1))
                    (partition_loop-Looped rounds (target + 1) (index + 1) (exchange A target index)
                      (omega arith) (omega arith) (omega arith) fits
                      (AllExact-Rearranged (moved target index A h k (omega arith) fits) exact)
                      (ground arith) (Divided-exchange start target index d A h k small div))
                    (λ x l. Looped-after (moved target index A h k (omega arith) fits) l)))
            | inr large ↦ rw large (
                partition_loop-Looped rounds target (index + 1) A (omega arith) h (omega arith) fits
                  exact last (Divided-keep start target index d A large div))
          ])
