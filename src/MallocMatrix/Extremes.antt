-- ===== src/MallocMatrix/Extremes.antt =====
-- What the statistics of timed_parallel_dense_mm.c say of the runs.
use cse422_archive.MallocMatrix.Statistics.{less, to_ulong, record_run, record_runs, Stats}
use cse422_archive.Base.{
  ℕ, ◌+◌, ◌%◌, ◌^◌, ◌<◌, ◌≡◌, refl, ◌∙◌, ◌⊎◌, inl, inr, true, false, List, [], ◌∷◌, arith, ◌==◌,
  Bool-cases, All, ℤ, pos, negsuc,
}

-- `a` is at most `b`.
abbrev pub AtMost : ℤ → ℤ → Type 0
AtMost a b = less b a ≡ false

AtMost-refl : (a : ℤ) → AtMost a a
unfolding less
AtMost-refl (pos a) = ground arith
AtMost-refl (negsuc a) = ground arith

AtMost-trans : (a b c : ℤ) → AtMost a b → AtMost b c → AtMost a c
unfolding less
AtMost-trans (pos a) (pos b) (pos c) h g = ground arith
AtMost-trans (pos a) (pos b) (negsuc c) h g = ground arith
AtMost-trans (pos a) (negsuc b) (pos c) h g = ground arith
AtMost-trans (pos a) (negsuc b) (negsuc c) h g = ground arith
AtMost-trans (negsuc a) (pos b) (pos c) h g = ground arith
AtMost-trans (negsuc a) (pos b) (negsuc c) h g = ground arith
AtMost-trans (negsuc a) (negsuc b) (pos c) h g = ground arith
AtMost-trans (negsuc a) (negsuc b) (negsuc c) h g = ground arith

less-AtMost : (a b : ℤ) → less a b ≡ true → AtMost a b
unfolding less
less-AtMost (pos a) (pos b) h = ground arith
less-AtMost (pos a) (negsuc b) h = ground arith
less-AtMost (negsuc a) (pos b) h = ground arith
less-AtMost (negsuc a) (negsuc b) h = ground arith

abbrev pub Within : Stats → ℤ → Type 0
Within s run = AtMost s.min_ns run × AtMost run s.max_ns

-- The bounds of `r` are no narrower than those of `s`.
pub record Wider (s r : Stats) : Type 0 where
  pub lower : AtMost r.min_ns s.min_ns
  pub upper : AtMost s.max_ns r.max_ns

Wider-Within : {s r : Stats} → Wider s r → (x : ℤ) → Within s x → Within r x
Wider-Within {s} {r} w x h =
    (AtMost-trans r.min_ns s.min_ns x w.lower h.0, AtMost-trans x s.max_ns r.max_ns h.1 w.upper)

Wider-trans : {s r t : Stats} → Wider s r → Wider r t → Wider s t
Wider-trans {s} {r} {t} v w = record {
  lower = AtMost-trans t.min_ns r.min_ns s.min_ns w.lower v.lower;
  upper = AtMost-trans s.max_ns r.max_ns t.max_ns v.upper w.upper;
}

record Recorded (run : ℤ) (s r : Stats) : Type 0 where
  wider : Wider s r
  within : Within r run
  max_from : (r.max_ns ≡ run) ⊎ (r.max_ns ≡ s.max_ns)
  min_from : (r.min_ns ≡ run) ⊎ (r.min_ns ≡ s.min_ns)
  sum : r.sum_ns ≡ (s.sum_ns + to_ulong run) % 2 ^ 64

record_run-Recorded :
    (i : ℕ) (run : ℤ) (s : Stats)
    → 0 < i
    → AtMost s.min_ns s.max_ns
    → Recorded run s (record_run i run s)
unfolding record_run
record_run-Recorded i run s h w = elim (Bool-cases (less s.max_ns run)) [
  | inl e ↦
      rw (later, e)
        (record {
          wider = record { lower = AtMost-refl s.min_ns; upper = less-AtMost s.max_ns run e };
          within =
              (AtMost-trans s.min_ns s.max_ns run w (less-AtMost s.max_ns run e), AtMost-refl run);
          max_from = inl refl;
          min_from = inr refl;
          sum = refl;
        })
  | inr e ↦ elim (Bool-cases (less run s.min_ns)) [
    | inl f ↦
        rw (later, e, f)
          (record {
            wider = record { lower = less-AtMost run s.min_ns f; upper = AtMost-refl s.max_ns };
            within = (AtMost-refl run, e);
            max_from = inr refl;
            min_from = inl refl;
            sum = refl;
          })
    | inr f ↦
        rw (later, e, f)
          (record {
            wider = record { lower = AtMost-refl s.min_ns; upper = AtMost-refl s.max_ns };
            within = (f, e);
            max_from = inr refl;
            min_from = inr refl;
            sum = refl;
          })
  ]
]
  where
    later : (i == 0) ≡ false
    later = ground arith

abbrev pub Has : ℤ → List ℤ → Type 0
Has x [] = ⊥
Has x (y ∷ ys) = (x ≡ y) ⊎ Has x ys

abbrev pub total : List ℤ → ℕ
total [] = 0
total (x ∷ xs) = to_ulong x + total xs

pub record Summary (runs : List ℤ) (s r : Stats) : Type 0 where
  pub all_within : All (Within r) runs
  pub wider : Wider s r
  pub max_from : Has r.max_ns runs ⊎ (r.max_ns ≡ s.max_ns)
  pub min_from : Has r.min_ns runs ⊎ (r.min_ns ≡ s.min_ns)
  pub sum : s.sum_ns < 2 ^ 64 → r.sum_ns ≡ (s.sum_ns + total runs) % 2 ^ 64

from_run :
    {x b a run : ℤ} (runs : List ℤ)
    → Has x runs ⊎ (x ≡ b)
    → (b ≡ run) ⊎ (b ≡ a)
    → Has x (run ∷ runs) ⊎ (x ≡ a)
from_run runs (inl h) g = inl (inr h)
from_run runs (inr h) (inl g) = inl (inl (h ∙ g))
from_run runs (inr h) (inr g) = inr (h ∙ g)

at_first : {x run : ℤ} (runs : List ℤ) → Has x runs ⊎ (x ≡ run) → Has x (run ∷ runs)
at_first runs (inl h) = inr h
at_first runs (inr h) = inl h

record_runs-Summary :
    (runs : List ℤ) (i : ℕ) (s : Stats)
    → 0 < i
    → AtMost s.min_ns s.max_ns
    → Summary runs s (record_runs i runs s)
unfolding record_runs
record_runs-Summary [] i s h w = record {
  all_within = tt;
  wider = record { lower = AtMost-refl s.min_ns; upper = AtMost-refl s.max_ns };
  max_from = inr refl;
  min_from = inr refl;
  sum = λ l. omega arith;
}
record_runs-Summary (run ∷ runs) i s h w =
    let one = record_run-Recorded i run s h w in
    let r = record_runs-Summary runs (i + 1) (record_run i run s) (omega arith) (
      AtMost-trans (record_run i run s).min_ns run (record_run i run s).max_ns one.within.0
        one.within.1) in
    record {
      all_within = (Wider-Within r.wider run one.within, r.all_within);
      wider = Wider-trans one.wider r.wider;
      max_from = from_run runs r.max_from one.max_from;
      min_from = from_run runs r.min_from one.min_from;
      sum = λ l. let e = r.sum (omega (arith, one.sum)) in omega (arith, e, one.sum);
    }

-- From at least one run on, whatever the statistics held before, the greatest run is the maximum, the
-- least one the minimum, and the sum is that of the runs modulo 2^64.
pub record_runs-extremes :
    (run : ℤ) (runs : List ℤ) (s : Stats)
    → s.sum_ns ≡ 0
    → All (Within (record_runs 0 (run ∷ runs) s)) (run ∷ runs)
      × Has (record_runs 0 (run ∷ runs) s).max_ns (run ∷ runs)
      × Has (record_runs 0 (run ∷ runs) s).min_ns (run ∷ runs)
      × ((record_runs 0 (run ∷ runs) s).sum_ns ≡ total (run ∷ runs) % 2 ^ 64)
unfolding record_runs record_run
record_runs-extremes run runs s e =
    let first : Stats = record {
      max_ns = run;
      min_ns = run;
      sum_ns = (s.sum_ns + to_ulong run) % 2 ^ 64;
    } in
    let r = record_runs-Summary runs 1 first (omega arith) (AtMost-refl run) in
    (
      (Wider-Within r.wider run (AtMost-refl run, AtMost-refl run), r.all_within),
      at_first runs r.max_from,
      at_first runs r.min_from,
      (let f = r.sum (omega arith) in omega (arith, f, e)),
    )
