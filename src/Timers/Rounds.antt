-- ===== src/Timers/Rounds.antt =====
-- A thread of labs/lab1 makes no more rounds than it is woken.
use cse422_archive.Base.{
  ℕ, ◌+◌, ◌≤◌, ◌≡◌, refl, Bool, true, false, arith, if◌then◌else◌, update_all,
}
use cse422_archive.Timers.System.{
  fresh, with_thread, Line, missing, count, sleep, asleep, check, ended, Phase, loading, in_use,
  stopping, joining, removed, crashed, Step, create_thread, create_failed, start_timer, count_round,
  fall_asleep, stay_awake, resume, go_on, terminate, timer_expire, expire_missing, cancel_timer,
  stop_thread, stop_missing, all_stopped, joined, Reach, start, later, Thread, Module,
}

-- Whether a thread comes to its count again before it is next woken.
unfoldable pending : Line → Bool → ℕ
pending missing s = 0
pending count s = 1
pending sleep s = if s then 0 else 1
pending asleep s = if s then 0 else 1
pending check s = 1
pending ended s = 0

unfoldable load : Thread → ℕ
unfolding pending
load t = t.iters + pending t.line t.interruptible

woken-load : (l : Line) (s : Bool) → pending l false ≤ pending l s + 1
unfolding pending
woken-load missing s = omega arith
woken-load count s = omega arith
woken-load sleep s = omega arith
woken-load asleep s = omega arith
woken-load check s = omega arith
woken-load ended s = omega arith

-- The removal has not begun, and the timer has not crashed.
abbrev pub unstopped : Phase → Bool
unstopped (loading i) = true
unstopped in_use = true
unstopped (stopping i) = false
unstopped (joining i) = false
unstopped removed = false
unstopped crashed = false

module _ (n : ℕ) where
  Bounded : Module → Type 0
  Bounded y = (i : ℕ) → load (y.threads i) ≤ y.expirations + 1

  moved :
      (y : Module) (i : ℕ) (t : Thread)
      → load t ≤ load (y.threads i)
      → Bounded y
      → Bounded (with_thread y i t)
  unfolding Bounded
  moved y i t le b =
      update_all (λ j u. load u ≤ y.expirations + 1) y.threads i t b (omega (arith, le, b i))

  Step-Bounded : {y z : Module} → Step n y z → unstopped z.phase ≡ true → Bounded y → Bounded z
  unfolding Bounded load pending
  Step-Bounded {y} (create_thread {i} e l) f b =
      update_all (λ j u. load u ≤ y.expirations + 1) y.threads i (fresh count) b (omega arith)
  Step-Bounded (create_failed e l) f b = b
  Step-Bounded (start_timer e l) f b = b
  Step-Bounded {y} (count_round i l e) f b = moved y i _ (rw e (omega arith)) b
  Step-Bounded {y} (fall_asleep i l e g) f b = moved y i _ (rw (e, g) (omega arith)) b
  Step-Bounded {y} (stay_awake i l e g) f b = moved y i _ (rw (e, g) (omega arith)) b
  Step-Bounded {y} (resume i l e g) f b = moved y i _ (rw (e, g) (omega arith)) b
  Step-Bounded {y} (go_on i l e g) f b = moved y i _ (rw e (omega arith)) b
  Step-Bounded {y} (terminate i l e g) f b = moved y i _ (rw e (omega arith)) b
  Step-Bounded {y} (timer_expire e h) f b =
      λ j. omega (arith, b j, woken-load (y.threads j).line (y.threads j).interruptible)
  Step-Bounded (expire_missing i e l h) f b = cc
  Step-Bounded (cancel_timer e) f b = cc
  Step-Bounded (stop_thread e l h) f b = cc
  Step-Bounded (stop_missing e l h) f b = cc
  Step-Bounded (all_stopped e l) f b = cc
  Step-Bounded (joined e l) f b = cc

  -- A step into such a phase is from one.
  Step-unstopped : {y z : Module} → Step n y z → unstopped z.phase ≡ true → unstopped y.phase ≡ true
  Step-unstopped (create_thread e l) f = rw e refl
  Step-unstopped (create_failed e l) f = rw e refl
  Step-unstopped (start_timer e l) f = rw e refl
  Step-unstopped (count_round i l e) f = f
  Step-unstopped (fall_asleep i l e g) f = f
  Step-unstopped (stay_awake i l e g) f = f
  Step-unstopped (resume i l e g) f = f
  Step-unstopped (go_on i l e g) f = f
  Step-unstopped (terminate i l e g) f = f
  Step-unstopped (timer_expire e h) f = f
  Step-unstopped (expire_missing i e l h) f = cc
  Step-unstopped (cancel_timer e) f = cc
  Step-unstopped (stop_thread e l h) f = cc
  Step-unstopped (stop_missing e l h) f = cc
  Step-unstopped (all_stopped e l) f = cc
  Step-unstopped (joined e l) f = cc

  Reach-Bounded : {y : Module} → Reach n y → unstopped y.phase ≡ true → Bounded y
  unfolding Bounded load pending
  Reach-Bounded start f = λ i. omega arith
  Reach-Bounded (later r s) f = Step-Bounded s f (Reach-Bounded r (Step-unstopped s f))

  -- In every reachable state before the removal, with no crash of the timer, a thread has made at most
  -- one round more than the timer has expired.
  pub iters-bound :
      {y : Module} (i : ℕ)
      → Reach n y
      → unstopped y.phase ≡ true
      → (y.threads i).iters ≤ y.expirations + 1
  unfolding Bounded load
  iters-bound i r f = omega (arith, Reach-Bounded r f i)
