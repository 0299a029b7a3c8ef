-- ===== src/Sort/Exchange.antt =====
-- `swap` of labs/lab2/user/sort.c on exact values, and what rearranging a range of an array means.
use cse422_archive.Base.{
  ℕ, ◌≤◌, ◌<◌, ◌≡◌, refl, ◌∙◌, arith, dec_lt, ℕ_discrete, update, total, total-update,
}
use cse422_archive.Machine.{read-ok, write-ok, done, Array}
use cse422_archive.Sort.Doubles.{Doubles}
use cse422_archive.Sort.Program.{swap}

module _ {D : Type 0} where
  abbrev pub exchange : Array D → ℕ → ℕ → Array D
  exchange A i j = record A { at = update (update A.at i (A.at j)) j (A.at i) }

  total-exchange :
      (w : D → ℕ) (A : Array D) (i j : ℕ)
      → i < A.size
      → j < A.size
      → total w A.size (exchange A i j).at ≡ total w A.size A.at
  total-exchange w A i j hi hj = ground (
    arith,
    total-update w A.size A.at i (A.at j) hi,
    total-update w A.size (update A.at i (A.at j)) j (A.at i) hj,
  )

  -- `B` is `A` with the elements from `lo` up to `hi`, both included, put in another order: the
  -- rest stands, each element of the range comes from the range, and every weight has the same
  -- total, so that no element is lost or doubled.
  pub record Rearranged (lo hi : ℕ) (A B : Array D) : Type 0 where
    pub same_size : B.size ≡ A.size
    pub below : (i : ℕ) → i < lo → B.at i ≡ A.at i
    pub above : (i : ℕ) → hi < i → B.at i ≡ A.at i
    pub from : (i : ℕ) → lo ≤ i → i ≤ hi → (j : ℕ) × (lo ≤ j) × (j ≤ hi) × (B.at i ≡ A.at j)
    pub totals : (w : D → ℕ) → total w B.size B.at ≡ total w A.size A.at

  pub Rearranged-refl : (lo hi : ℕ) (A : Array D) → Rearranged lo hi A A
  Rearranged-refl lo hi A = record {
    same_size = refl;
    below = λ i h. refl;
    above = λ i h. refl;
    from = λ i h k. (i, h, k, refl);
    totals = λ w. refl;
  }

  pub Rearranged-trans :
      {lo hi : ℕ} {A B C : Array D}
      → Rearranged lo hi A B
      → Rearranged lo hi B C
      → Rearranged lo hi A C
  Rearranged-trans p q = record {
    same_size = q.same_size ∙ p.same_size;
    below = λ i h. q.below i h ∙ p.below i h;
    above = λ i h. q.above i h ∙ p.above i h;
    from = λ i h k.
        let (j, hj, kj, e) = q.from i h k in
        let (m, hm, km, e') = p.from j hj kj in (m, hm, km, e ∙ e');
    totals = λ w. q.totals w ∙ p.totals w;
  }

  -- A rearrangement of a smaller range is one of the larger.
  pub Rearranged-widen :
      {lo hi : ℕ} (a b : ℕ) {A B : Array D}
      → a ≤ lo
      → hi ≤ b
      → Rearranged lo hi A B
      → Rearranged a b A B
  Rearranged-widen {lo} {hi} a b {A} {B} ha hb p = record {
    same_size = p.same_size;
    below = λ i h. p.below i (omega arith);
    above = λ i h. p.above i (omega arith);
    from = λ i h k. elim (dec_lt i lo) [
      | yes under ↦ (i, h, k, p.below i under)
      | no in_lo ↦ elim (dec_lt hi i) [
        | yes over ↦ (i, h, k, p.above i over)
        | no in_hi ↦
            let (j, hj, kj, e) = p.from i (omega arith) (omega arith) in
            (j, omega arith, omega arith, e)
      ]
    ];
    totals = p.totals;
  }

  pub exchange-Rearranged :
      (A : Array D) (lo hi i j : ℕ)
      → lo ≤ i
      → i ≤ hi
      → lo ≤ j
      → j ≤ hi
      → hi < A.size
      → Rearranged lo hi A (exchange A i j)
  exchange-Rearranged A lo hi i j a b c d h = record {
    same_size = refl;
    below = λ x hx. ground arith;
    above = λ x hx. ground arith;
    from = λ x hx kx. elim (ℕ_discrete j x) [
      | yes e ↦ (i, a, b, ground arith)
      | no n ↦ elim (ℕ_discrete i x) [
        | yes e ↦ (j, c, d, ground arith)
        | no m ↦ (x, hx, kx, ground arith)
      ]
    ];
    totals = λ w. total-exchange w A i j (omega arith) (omega arith);
  }

module _ (F : Doubles) (rand : ℕ → ℕ) where
  open F use {D, of_unsigned, to_unsigned}

  -- The doubles that survive the `unsigned` temporary of `swap`.
  abbrev pub IsExact : D → Type 0
  IsExact d = of_unsigned (to_unsigned d) ≡ d

  -- In bounds and on an exact value `swap` exchanges the two elements.
  pub swap-exchange :
      (A : Array D) (i j : ℕ)
      → i < A.size
      → j < A.size
      → IsExact (A.at i)
      → swap F rand A i j ≡ done (exchange A i j)
  unfolding swap
  swap-exchange A i j hi hj e = rw (read-ok A i hi) (
      rw (read-ok A j hj) (
        rw (write-ok A i (A.at j) hi)
          (rw e (write-ok (record A { at = update A.at i (A.at j) }) j (A.at i) hj))))
