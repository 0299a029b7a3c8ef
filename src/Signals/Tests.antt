-- ===== src/Signals/Tests.antt =====
-- studios/studio20 at small inputs, and the theorems at inputs.
use cse422_archive.Signals.Interrupts.{past_end}
use cse422_archive.Signals.Count.{printed-sent}
use cse422_archive.Signals.Ending.{stuck-printed}
use cse422_archive.Signals.Printing.{
  started, first_test, finished, first_enter, first_leave, print_number, first_count, start_again,
  second_enter, second_leave, report, second_count, interrupt, Moves, here, onward, Printer,
}
use cse422_archive.Signals.Reports.{Has, marked-reported}
use cse422_archive.Base.{ℕ, ◌+◌, ◌^◌, ◌≡◌, refl, ap, ◌≢◌, true, some, arith, pos, negsuc}
use cse422_archive.Signals.System.{
  sender, sig_handler, usage, over_limit, sends, Step, send_zero, refuse_zero, send_one, refuse_one,
  deliver, print_count, Reach, start, later, Receiver, System,
}

starts : sender (2 ^ 64) 3 (pos 2) 10 ≡ sends 2
unfolding sender
starts = refl

too_many : (sender (2 ^ 64) 3 (negsuc 0) 10 ≡ over_limit) × (sender (2 ^ 64) 2 (pos 2) 10 ≡ usage)
unfolding sender
too_many = (refl, refl)

abbrev both_handled : Receiver
both_handled = sig_handler 1 (sig_handler 0 (record { done_flag = 0; count = 0 }))

both_handled_fields : (both_handled.done_flag ≡ 1) × (both_handled.count ≡ 1)
unfolding sig_handler
both_handled_fields = (refl, refl)

both_handled-done : both_handled.done_flag ≢ 0
both_handled-done e = omega (arith, both_handled_fields.0)

-- One of two zeros is refused; the other and the one arrive.
abbrev all_arrived : (y : System) × Reach 2 y
all_arrived = (
  _,
  later
      (later
        (later
          (later (later (later start (send_zero refl)) (refuse_zero refl)) (send_one refl refl))
          (deliver refl))
        (deliver refl))
      (print_count both_handled-done refl),
)

abbrev last_refused : (y : System) × Reach 0 y
last_refused = (_, later start (refuse_one refl refl))

printed-sent_example : 1 + all_arrived.0.refused ≡ 2
printed-sent_example = printed-sent all_arrived.1 1 (ap some both_handled_fields.1)

nothing_left : (z : System) → ¬ Step all_arrived.0 z
nothing_left z (send_zero e) = omega arith
nothing_left z (refuse_zero e) = omega arith
nothing_left z (send_one e f) = cc
nothing_left z (refuse_one e f) = cc
nothing_left z (deliver e) = cc
nothing_left z (print_count h e) = cc

stuck-printed_example : (c : ℕ) × (all_arrived.0.printed ≡ some c) × (c + all_arrived.0.refused ≡ 2)
stuck-printed_example = stuck-printed all_arrived.1 nothing_left refl

not_finished : first_test ≢ finished
not_finished e = cc

-- One number, interrupted.
abbrev interrupted : (y : Printer) × Moves 1 started y
interrupted = (
  _,
  onward
      (onward
        (onward
          (onward (onward here (interrupt not_finished (omega arith)))
            (first_enter refl (omega arith)))
          (print_number refl))
        (first_count refl))
      (first_leave refl (omega arith)),
)

abbrev reported : (y : Printer) × Moves 1 interrupted.0 y
reported = (
  _,
  onward
      (onward
        (onward (onward (onward here (start_again refl)) (second_enter refl (omega arith)))
          (report refl refl))
        (second_count refl))
      (second_leave refl (omega arith)),
)

marked-reported_example : Has 0 reported.0.reports
marked-reported_example = marked-reported 1 0 interrupted.1 refl reported.1 refl (omega arith) refl

past_end_example : (y : Printer) × Moves 500000 started y × (y.overflowed ≡ true)
past_end_example = past_end 500000
