-- ===== src/Signals/Interrupts.antt =====
-- Where the handler of studios/studio20/print500000.c writes out of bounds.
use cse422_archive.Base.{
  ℕ, zero, suc, ◌+◌, ◌≤◌, ◌<◌, ◌≡◌, refl, ◌⊎◌, inl, inr, Bool, true, false, arith,
}
use cse422_archive.Signals.Printing.{
  started, Line, first_test, first_body, first_next, reset, second_test, second_body, second_next,
  finished, Move, first_enter, first_leave, print_number, first_count, start_again, second_enter,
  second_leave, report, no_report, second_count, interrupt, interrupt_past, Moves, here, onward,
  Printer,
}

-- A line within a loop's body is reached with the counter below the size.
unfoldable pub inner : Line → Bool
inner first_test = false
inner first_body = true
inner first_next = true
inner reset = false
inner second_test = false
inner second_body = true
inner second_next = true
inner finished = false

next : {i size : ℕ} → i < size → i + 1 ≤ size
next h = omega arith

module _ (size : ℕ) where
  pub record Bounded (y : Printer) : Type 0 where
    pub most : y.i ≤ size
    pub inside : inner y.line ≡ true → y.i < size

  Move-Bounded : {y z : Printer} → Move size y z → Bounded y → Bounded z
  unfolding inner
  Move-Bounded (first_enter e h) b = record { most = b.most; inside = λ _. h }
  Move-Bounded (first_leave e h) b = record { most = b.most; inside = λ f. cc }
  Move-Bounded (print_number e) b = record { most = b.most; inside = λ _. b.inside (rw e refl) }
  Move-Bounded (first_count e) b = record { most = next (b.inside (rw e refl)); inside = λ f. cc }
  Move-Bounded (start_again e) b = record { most = omega arith; inside = λ f. cc }
  Move-Bounded (second_enter e h) b = record { most = b.most; inside = λ _. h }
  Move-Bounded (second_leave e h) b = record { most = b.most; inside = λ f. cc }
  Move-Bounded (report e h) b = record { most = b.most; inside = λ _. b.inside (rw e refl) }
  Move-Bounded (no_report e h) b = record { most = b.most; inside = λ _. b.inside (rw e refl) }
  Move-Bounded (second_count e) b = record { most = next (b.inside (rw e refl)); inside = λ f. cc }
  Move-Bounded (interrupt e h) b = record { most = b.most; inside = b.inside }
  Move-Bounded (interrupt_past e h) b = record { most = b.most; inside = b.inside }

  Moves-Bounded : {y z : Printer} → Moves size y z → Bounded y → Bounded z
  Moves-Bounded here b = b
  Moves-Bounded (onward r m) b = Move-Bounded m (Moves-Bounded r b)

  -- In every state that a run reaches with the counter at the size or above, where the handler would
  -- write past the end of `called`, the counter is the size, and the program is at a loop's test, at
  -- the reset or finished.
  pub past_lines :
      {y : Printer}
      → Moves size started y
      → size ≤ y.i
      → (y.i ≡ size)
        × ((y.line ≡ first_test)
            ⊎ ((y.line ≡ reset) ⊎ ((y.line ≡ second_test) ⊎ (y.line ≡ finished))))
  unfolding inner
  past_lines {y} r h = (omega (arith, b.most), of_line y.line (λ e. omega (arith, b.inside e)))
    where
      b : Bounded y
      b = Moves-Bounded r (record { most = omega arith; inside = λ f. cc })

      of_line :
          (l : Line)
          → (inner l ≡ true → ⊥)
          → (l ≡ first_test) ⊎ ((l ≡ reset) ⊎ ((l ≡ second_test) ⊎ (l ≡ finished)))
      of_line first_test n = inl refl
      of_line first_body n = absurd (n refl)
      of_line first_next n = absurd (n refl)
      of_line reset n = inr (inl refl)
      of_line second_test n = inr (inr (inl refl))
      of_line second_body n = absurd (n refl)
      of_line second_next n = absurd (n refl)
      of_line finished n = inr (inr (inr refl))

  -- The first loop can go on until its counter is any number up to the size.
  loop_at :
      (n : ℕ) → n ≤ size → (y : Printer) × Moves size started y × (y.line ≡ first_test) × (y.i ≡ n)
  loop_at zero h = (started, here, refl, refl)
  loop_at (suc n) h =
      let (y, r, l, e) = loop_at n (omega arith) in
      (
        _,
        onward (onward (onward r (first_enter l (omega arith))) (print_number refl))
            (first_count refl),
        refl,
        omega arith,
      )

  -- For every size there is a run in which the handler writes past the end of `called`.
  pub past_end : (y : Printer) × Moves size started y × (y.overflowed ≡ true)
  past_end =
      let (y, r, l, e) = loop_at size (omega arith) in
      (_, onward r (interrupt_past (λ f. cc) (omega arith)), refl)
