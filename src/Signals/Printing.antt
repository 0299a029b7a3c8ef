-- ===== src/Signals/Printing.antt =====
-- studios/studio20/print500000.c: two loops over one volatile counter, with a handler that may run
-- between any two of their accesses. `shouldterm` stays 0, since nothing sets it, and the printing of
-- the first loop is left out. `size` is a parameter.
use cse422_archive.Base.{ℕ, ◌+◌, ◌≤◌, ◌<◌, ◌≡◌, ◌≢◌, Bool, true, false, List, [], ◌∷◌, update}

pub data Line : Type 0 where
  first_test : Line  -- i < size
  first_body : Line  -- printf, if (shouldterm)
  first_next : Line  -- i++
  reset : Line  -- i = 0
  second_test : Line  -- i < size
  second_body : Line  -- if (called[i] == 1)
  second_next : Line  -- i++
  finished : Line

-- `overflowed` says that the handler has written past the end of `called`.
pub record Printer : Type 0 where
  pub line : Line
  pub i : ℕ
  pub called : ℕ → ℕ
  pub reports : List ℕ
  pub overflowed : Bool

module _ (size : ℕ) where
  pub data Move (y : Printer) : Printer → Type 0 where
    first_enter : y.line ≡ first_test → y.i < size → Move y (record y { line = first_body })
    first_leave : y.line ≡ first_test → size ≤ y.i → Move y (record y { line = reset })
    print_number : y.line ≡ first_body → Move y (record y { line = first_next })
    first_count : y.line ≡ first_next → Move y (record y { line = first_test; i = y.i + 1 })
    start_again : y.line ≡ reset → Move y (record y { line = second_test; i = 0 })
    second_enter : y.line ≡ second_test → y.i < size → Move y (record y { line = second_body })
    second_leave : y.line ≡ second_test → size ≤ y.i → Move y (record y { line = finished })
    report :
        y.line ≡ second_body
        → y.called y.i ≡ 1
        → Move y (record y { line = second_next; reports = y.i ∷ y.reports })
    no_report : y.line ≡ second_body → y.called y.i ≢ 1 → Move y (record y { line = second_next })
    second_count : y.line ≡ second_next → Move y (record y { line = second_test; i = y.i + 1 })
    -- `sigaction_fn`
    interrupt :
        y.line ≢ finished → y.i < size → Move y (record y { called = update y.called y.i 1 })
    interrupt_past : y.line ≢ finished → size ≤ y.i → Move y (record y { overflowed = true })

  pub data Moves (y : Printer) : Printer → Type 0 where
    here : Moves y y
    onward : {x z : Printer} → Moves y x → Move x z → Moves y z

-- The static variables are zero.
abbrev pub started : Printer
started = record { line = first_test; i = 0; called = λ _. 0; reports = []; overflowed = false }
