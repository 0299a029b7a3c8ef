-- ===== src/Signals/Reports.antt =====
-- Which interrupts studios/studio20/print500000.c reports.
use mathlib.Core.Path.{subst}
use cse422_archive.Base.{ℕ, ◌+◌, ◌<◌, ◌≡◌, ◌⊎◌, inl, inr, List, [], ◌∷◌, arith, ℕ_discrete, update}
use cse422_archive.Signals.Printing.{
  started, Line, first_test, first_body, first_next, reset, second_test, second_body, second_next,
  finished, Move, first_enter, first_leave, print_number, first_count, start_again, second_enter,
  second_leave, report, no_report, second_count, interrupt, interrupt_past, Moves, here, onward,
  Printer,
}

abbrev pub Has : ℕ → List ℕ → Type 0
Has j [] = ⊥
Has j (x ∷ xs) = (x ≡ j) ⊎ Has j xs

-- The indices that the second loop has passed.
unfoldable passed : ℕ → Line → ℕ → ℕ
passed size first_test i = 0
passed size first_body i = 0
passed size first_next i = 0
passed size reset i = 0
passed size second_test i = i
passed size second_body i = i
passed size second_next i = i + 1
passed size finished i = size

still_one : (called : ℕ → ℕ) (i j : ℕ) → called j ≡ 1 → update called i 1 j ≡ 1
still_one called i j h = ground arith

-- The indices of a set that are marked, and reported once the second loop has passed them.
record Reported (size : ℕ) (marked : ℕ → ℕ) (y : Printer) : Type 0 where
  kept : (j : ℕ) → marked j ≡ 1 → y.called j ≡ 1
  shown : (j : ℕ) → j < passed size y.line y.i → marked j ≡ 1 → Has j y.reports

module _ (size : ℕ) (marked : ℕ → ℕ) where
  Move-Reported : {y z : Printer} → Move size y z → Reported size marked y → Reported size marked z
  unfolding passed
  Move-Reported (first_enter e h) r = record {
    kept = r.kept;
    shown = λ j l m. absurd (omega arith);
  }
  Move-Reported (first_leave e h) r = record {
    kept = r.kept;
    shown = λ j l m. absurd (omega arith);
  }
  Move-Reported (print_number e) r = record { kept = r.kept; shown = λ j l m. absurd (omega arith) }
  Move-Reported (first_count e) r = record { kept = r.kept; shown = λ j l m. absurd (omega arith) }
  Move-Reported (start_again e) r = record { kept = r.kept; shown = λ j l m. absurd (omega arith) }
  Move-Reported (second_enter e h) r = record {
    kept = r.kept;
    shown = λ j l m. r.shown j (rw e l) m;
  }
  Move-Reported (second_leave e h) r = record {
    kept = r.kept;
    shown = λ j l m. r.shown j (rw e (omega arith)) m;
  }
  Move-Reported {y} (report e h) r = record {
    kept = r.kept;
    shown = λ j l m. elim (ℕ_discrete y.i j) [
      | yes p ↦ inl p
      | no ne ↦ inr (r.shown j (rw e (omega arith)) m)
    ];
  }
  Move-Reported {y} (no_report e h) r = record {
    kept = r.kept;
    shown = λ j l m. elim (ℕ_discrete y.i j) [
      | yes p ↦ absurd (h (rw p (r.kept j m)))
      | no ne ↦ r.shown j (rw e (omega arith)) m
    ];
  }
  Move-Reported (second_count e) r = record { kept = r.kept; shown = λ j l m. r.shown j (rw e l) m }
  Move-Reported {y} (interrupt e h) r = record {
    kept = λ j m. still_one y.called y.i j (r.kept j m);
    shown = r.shown;
  }
  Move-Reported (interrupt_past e h) r = record { kept = r.kept; shown = r.shown }

  Moves-Reported :
      {y z : Printer} → Moves size y z → Reported size marked y → Reported size marked z
  Moves-Reported here r = r
  Moves-Reported (onward s m) r = Move-Reported m (Moves-Reported s r)

module _ (size : ℕ) where
  Sound : Printer → Type 0
  Sound y = (j : ℕ) → Has j y.reports → y.called j ≡ 1

  Move-Sound : {y z : Printer} → Move size y z → Sound y → Sound z
  unfolding Sound
  Move-Sound (first_enter e h) s = s
  Move-Sound (first_leave e h) s = s
  Move-Sound (print_number e) s = s
  Move-Sound (first_count e) s = s
  Move-Sound (start_again e) s = s
  Move-Sound (second_enter e h) s = s
  Move-Sound (second_leave e h) s = s
  Move-Sound {y} (report e h) s =
      λ j k. elim k [ inl p ↦ subst (λ x. y.called x ≡ 1) p h | inr q ↦ s j q ]
  Move-Sound (no_report e h) s = s
  Move-Sound (second_count e) s = s
  Move-Sound {y} (interrupt e h) s = λ j k. still_one y.called y.i j (s j k)
  Move-Sound (interrupt_past e h) s = s

  Moves-Sound : {y z : Printer} → Moves size y z → Sound y → Sound z
  Moves-Sound here s = s
  Moves-Sound (onward r m) s = Move-Sound m (Moves-Sound r s)

  -- In a run that resets the counter and finishes, every index below the size that is marked at the
  -- reset is reported at the end.
  pub marked-reported :
      {y z : Printer} (j : ℕ)
      → Moves size started y
      → y.line ≡ reset
      → Moves size y z
      → z.line ≡ finished
      → j < size
      → y.called j ≡ 1
      → Has j z.reports
  unfolding passed
  marked-reported {y} {z} j r at_reset s at_end l m =
      (Moves-Reported size y.called s
          (record { kept = λ i h. h; shown = λ i k h. absurd (nothing i k) })).shown
        j (rw at_end l) m
    where
      nothing : (i : ℕ) → i < passed size y.line y.i → ⊥
      nothing i k = ground (arith, at_reset)

  -- Every index that a reachable state has reported is marked in it.
  pub reported-marked :
      {y : Printer} (j : ℕ) → Moves size started y → Has j y.reports → y.called j ≡ 1
  unfolding Sound
  reported-marked j r = Moves-Sound r (λ i h. absurd h) j
