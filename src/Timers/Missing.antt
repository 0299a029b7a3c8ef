-- ===== src/Timers/Missing.antt =====
-- The modules of labs/lab1 with a thread that could not be created.
use cse422_archive.Base.{ℕ, ◌<◌, ◌≡◌, ◌≢◌, arith, ℕ_discrete, update_all}
use cse422_archive.Timers.System.{
  fresh, stopped, with_thread, Line, missing, count, ended, removed, Step, create_thread,
  create_failed, start_timer, count_round, fall_asleep, stay_awake, resume, go_on, terminate,
  timer_expire, expire_missing, cancel_timer, stop_thread, stop_missing, all_stopped, joined, Reach,
  start, later, Thread, Module,
}
use cse422_archive.Timers.Stopped.{removed-ended}

module _ (n : ℕ) where
  -- Once the timer has expired every thread is there.
  Present : Module → Type 0
  Present y = 0 < y.expirations → (k : ℕ) → k < n → (y.threads k).line ≢ missing

  replaced :
      (y : Module) (i : ℕ) (t : Thread) → t.line ≢ missing → Present y → Present (with_thread y i t)
  unfolding Present
  replaced y i t ne p =
      λ e. update_all (λ k u. k < n → u.line ≢ missing) y.threads i t (p e) (λ a. ne)

  Step-Present : {y z : Module} → Step n y z → Present y → Present z
  unfolding Present
  Step-Present {y} (create_thread {i} e l) p = replaced y i (fresh count) (λ f. cc) p
  Step-Present (create_failed e l) p = p
  Step-Present (start_timer e l) p = p
  Step-Present {y} (count_round i l e) p = replaced y i _ (λ f. cc) p
  Step-Present {y} (fall_asleep i l e g) p = replaced y i _ (λ f. cc) p
  Step-Present {y} (stay_awake i l e g) p = replaced y i _ (λ f. cc) p
  Step-Present {y} (resume i l e g) p = replaced y i _ (λ f. cc) p
  Step-Present {y} (go_on i l e g) p = replaced y i _ (λ f. cc) p
  Step-Present {y} (terminate i l e g) p = replaced y i _ (λ f. cc) p
  Step-Present (timer_expire e h) p = λ a. h
  Step-Present (expire_missing i e l h) p = p
  Step-Present (cancel_timer e) p = p
  Step-Present {y} (stop_thread {i} e l h) p = replaced y i (stopped (y.threads i)) h p
  Step-Present (stop_missing e l h) p = p
  Step-Present (all_stopped e l) p = p
  Step-Present (joined e l) p = p

  Reach-Present : {y : Module} → Reach n y → Present y
  unfolding Present
  Reach-Present start = λ a. absurd (omega arith)
  Reach-Present (later r s) = Step-Present s (Reach-Present r)

  missing-ne-ended : {l : Line} → l ≡ missing → l ≢ ended
  missing-ne-ended e f = cc

  -- In every reachable state in which one of the module's threads has not been created, no expiration
  -- of the timer has come to its end, and the module has not been removed.
  pub missing-stuck :
      {y : Module} (k : ℕ)
      → Reach n y
      → k < n
      → (y.threads k).line ≡ missing
      → (y.expirations ≡ 0) × (y.phase ≢ removed)
  unfolding Present
  missing-stuck {y} k r h e = (
    elim (ℕ_discrete y.expirations 0) [
      | yes z ↦ z
      | no ne ↦ absurd (Reach-Present r (omega (arith)) k h e)
    ],
    λ f. missing-ne-ended e (removed-ended n k r f h),
  )
