-- ===== src/Timers/System.antt =====
-- labs/lab1/recurring_timer.c, with one thread, and mt_recurring_timer.c, with four: the loading of the
-- module, its `n` threads, the timer, and the removal. A step of the timer is a whole `timer_expire`,
-- and creating a thread, binding it and waking it is one step. A use of the pointer to a thread that
-- could not be created crashes. `printk` and the length of the interval are left out.
use cse422_archive.Base.{ℕ, suc, ◌+◌, ◌≤◌, ◌<◌, ◌≡◌, ◌≢◌, Bool, true, false, update}

-- `spawn_func`; `missing` is a thread that has not been created.
pub data Line : Type 0 where
  missing : Line
  count : Line  -- ++iters, up to set_current_state(TASK_INTERRUPTIBLE)
  sleep : Line  -- schedule()
  asleep : Line  -- in schedule()
  check : Line  -- kthread_should_stop()
  ended : Line

-- `interruptible` is the thread's state: `wake_up_process` makes it running.
pub record Thread : Type 0 where
  pub line : Line
  pub interruptible : Bool
  pub should_stop : Bool
  pub iters : ℕ

-- `mod_init` and `mod_exit`
pub data Phase : Type 0 where
  loading : (i : ℕ) → Phase  -- kthread_create, kthread_bind and wake_up_process
  in_use : Phase
  stopping : (i : ℕ) → Phase  -- kthread_stop: sets the flag and wakes the thread
  joining : (i : ℕ) → Phase  -- kthread_stop: waits for the thread's end
  removed : Phase
  crashed : Phase

pub record Module : Type 0 where
  pub threads : ℕ → Thread
  pub timer_on : Bool
  pub expirations : ℕ
  pub phase : Phase

abbrev pub fresh : Line → Thread
fresh l = record { line = l; interruptible = false; should_stop = false; iters = 0 }

abbrev pub woken : Thread → Thread
woken t = record t { interruptible = false }

abbrev pub stopped : Thread → Thread
stopped t = record t { should_stop = true; interruptible = false }

abbrev pub with_thread : Module → ℕ → Thread → Module
with_thread y i t = record y { threads = update y.threads i t }

module _ (n : ℕ) where
  pub data Step (y : Module) : Module → Type 0 where
    create_thread :
        {i : ℕ}
        → y.phase ≡ loading i
        → i < n
        → Step y (record y { threads = update y.threads i (fresh count); phase = loading (suc i) })
    create_failed :
        {i : ℕ} → y.phase ≡ loading i → i < n → Step y (record y { phase = loading (suc i) })
    start_timer :
        {i : ℕ}
        → y.phase ≡ loading i
        → n ≤ i
        → Step y (record y { timer_on = true; phase = in_use })
    count_round :
        (i : ℕ)
        → i < n
        → (y.threads i).line ≡ count
        → Step y (
            with_thread y i (record (y.threads i) {
              line = sleep;
              interruptible = true;
              iters = (y.threads i).iters + 1;
            }))
    fall_asleep :
        (i : ℕ)
        → i < n
        → (y.threads i).line ≡ sleep
        → (y.threads i).interruptible ≡ true
        → Step y (with_thread y i (record (y.threads i) { line = asleep }))
    stay_awake :
        (i : ℕ)
        → i < n
        → (y.threads i).line ≡ sleep
        → (y.threads i).interruptible ≡ false
        → Step y (with_thread y i (record (y.threads i) { line = check }))
    resume :
        (i : ℕ)
        → i < n
        → (y.threads i).line ≡ asleep
        → (y.threads i).interruptible ≡ false
        → Step y (with_thread y i (record (y.threads i) { line = check }))
    go_on :
        (i : ℕ)
        → i < n
        → (y.threads i).line ≡ check
        → (y.threads i).should_stop ≡ false
        → Step y (with_thread y i (record (y.threads i) { line = count }))
    terminate :
        (i : ℕ)
        → i < n
        → (y.threads i).line ≡ check
        → (y.threads i).should_stop ≡ true
        → Step y (with_thread y i (record (y.threads i) { line = ended }))
    timer_expire :
        y.timer_on ≡ true
        → ((i : ℕ) → i < n → (y.threads i).line ≢ missing)
        → Step y (record y { threads = λ i. woken (y.threads i); expirations = y.expirations + 1 })
    expire_missing :
        (i : ℕ)
        → y.timer_on ≡ true
        → i < n
        → (y.threads i).line ≡ missing
        → Step y (record y { timer_on = false; phase = crashed })
    cancel_timer : y.phase ≡ in_use → Step y (record y { timer_on = false; phase = stopping 0 })
    stop_thread :
        {i : ℕ}
        → y.phase ≡ stopping i
        → i < n
        → (y.threads i).line ≢ missing
        → Step y
            (record y { threads = update y.threads i (stopped (y.threads i)); phase = joining i })
    stop_missing :
        {i : ℕ}
        → y.phase ≡ stopping i
        → i < n
        → (y.threads i).line ≡ missing
        → Step y (record y { phase = crashed })
    all_stopped : {i : ℕ} → y.phase ≡ stopping i → n ≤ i → Step y (record y { phase = removed })
    joined :
        {i : ℕ}
        → y.phase ≡ joining i
        → (y.threads i).line ≡ ended
        → Step y (record y { phase = stopping (suc i) })

  pub data Reach : Module → Type 0 where
    start : Reach (record {
      threads = λ _. fresh missing;
      timer_on = false;
      expirations = 0;
      phase = loading 0;
    })
    later : {y z : Module} → Reach y → Step y z → Reach z

  pub data Steps (y : Module) : Module → Type 0 where
    here : Steps y y
    onward : {x z : Module} → Steps y x → Step x z → Steps y z
