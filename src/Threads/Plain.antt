-- ===== src/Threads/Plain.antt =====
-- What the threads of studios/studio8/core_thread.c count with a load and a store.
use cse422_archive.Base.{ℕ, ◌+◌, ◌%◌, ◌^◌, ◌≤◌, false, arith, update, update_all}
use cse422_archive.Threads.State.{
  woken, halted, Thread, unborn, begin, compare_i, add, store_sum, load_i, store_i, idle, ended,
  Module,
}
use cse422_archive.Threads.System.{
  Step, init_clear, init_enter, init_leave, create_done, create_failed, check_task, check_error,
  wake_task, wake_other, bind_task, bind_other, past_entries, init_next, init_put, init_finish,
  exit_clear, exit_enter, exit_leave, exit_check_task, exit_check_error, stop_task, stop_again,
  stop_other, joined, exit_load, exit_store, thread_begin, thread_skip, thread_enter, thread_leave,
  add_at_once, add_load, add_store, thread_load, thread_store, thread_end, Reach, start, later,
}
use mathlib.Core.Path.{subst}
use mathlib.Core.Bool.{false≢true}

-- What a thread has loaded for its increment is at most `n`.
Within : ℕ → Thread → Type 0
Within n (store_sum r) = r ≤ n
Within n unborn = Unit
Within n begin = Unit
Within n compare_i = Unit
Within n add = Unit
Within n load_i = Unit
Within n (store_i r) = Unit
Within n idle = Unit
Within n ended = Unit

Within-suc : (n : ℕ) (l : Thread) → Within n l → Within (n + 1) l
unfolding Within
Within-suc n unborn h = tt
Within-suc n begin h = tt
Within-suc n compare_i h = tt
Within-suc n add h = tt
Within-suc n (store_sum r) h = omega arith
Within-suc n load_i h = tt
Within-suc n (store_i r) h = tt
Within-suc n idle h = tt
Within-suc n ended h = tt

woken-Within : (n : ℕ) (l : Thread) → Within n l → Within n (woken l)
unfolding Within
woken-Within n unborn h = tt
woken-Within n begin h = h
woken-Within n compare_i h = h
woken-Within n add h = h
woken-Within n (store_sum r) h = h
woken-Within n load_i h = h
woken-Within n (store_i r) h = h
woken-Within n idle h = h
woken-Within n ended h = h

halted-Within : (n : ℕ) (l : Thread) → Within n l → Within n (halted l)
unfolding Within
halted-Within n unborn h = tt
halted-Within n begin h = h
halted-Within n compare_i h = h
halted-Within n add h = h
halted-Within n (store_sum r) h = h
halted-Within n load_i h = h
halted-Within n (store_i r) h = h
halted-Within n idle h = h
halted-Within n ended h = h

wrapped-le : (r n : ℕ) → r ≤ n → (r + 1) % 2 ^ 32 ≤ n + 1
wrapped-le r n h = omega arith

record AtMost (y : Module) : Type 0 where
  sum : y.shared_data ≤ y.increments
  stores : (s : ℕ) → Within y.increments (y.threads s)

module _ (iters : ℕ) where
  moved :
      (y : Module) (t : ℕ) (l : Thread) (i : ℕ)
      → AtMost y
      → Within y.increments l
      → AtMost (record y { i = i; threads = update y.threads t l })
  moved y t l i v p = record {
    sum = v.sum;
    stores = update_all (λ s. Within y.increments) y.threads t l v.stores p;
  }

  Step-AtMost : {y z : Module} → Step false iters y z → AtMost y → AtMost z
  unfolding Within
  Step-AtMost (init_clear e) v = record { sum = v.sum; stores = v.stores }
  Step-AtMost (init_enter e h) v = record { sum = v.sum; stores = v.stores }
  Step-AtMost (init_leave e h) v = record { sum = v.sum; stores = v.stores }
  Step-AtMost (create_done e h) v = record { sum = v.sum; stores = v.stores }
  Step-AtMost (create_failed e h) v = record { sum = v.sum; stores = v.stores }
  Step-AtMost (check_task e h f) v = record { sum = v.sum; stores = v.stores }
  Step-AtMost (check_error e h f) v = record { sum = v.sum; stores = v.stores }
  Step-AtMost {y} (wake_task {t} e h f) v = record {
    sum = v.sum;
    stores =
        update_all (λ s. Within y.increments) y.threads t (woken (y.threads t)) v.stores
          (woken-Within y.increments (y.threads t) (v.stores t));
  }
  Step-AtMost (wake_other e h f) v = record { sum = v.sum; stores = v.stores }
  Step-AtMost (bind_task e h f) v = record { sum = v.sum; stores = v.stores }
  Step-AtMost (bind_other e h f) v = record { sum = v.sum; stores = v.stores }
  Step-AtMost (past_entries e h) v = record { sum = v.sum; stores = v.stores }
  Step-AtMost (init_next e) v = record { sum = v.sum; stores = v.stores }
  Step-AtMost (init_put e) v = record { sum = v.sum; stores = v.stores }
  Step-AtMost (init_finish e) v = record { sum = v.sum; stores = v.stores }
  Step-AtMost (exit_clear e) v = record { sum = v.sum; stores = v.stores }
  Step-AtMost (exit_enter e h) v = record { sum = v.sum; stores = v.stores }
  Step-AtMost (exit_leave e h) v = record { sum = v.sum; stores = v.stores }
  Step-AtMost (exit_check_task e h f) v = record { sum = v.sum; stores = v.stores }
  Step-AtMost (exit_check_error e h f) v = record { sum = v.sum; stores = v.stores }
  Step-AtMost (stop_again e h f g) v = record { sum = v.sum; stores = v.stores }
  Step-AtMost (stop_other e h f) v = record { sum = v.sum; stores = v.stores }
  Step-AtMost (joined e f) v = record { sum = v.sum; stores = v.stores }
  Step-AtMost (exit_load e) v = record { sum = v.sum; stores = v.stores }
  Step-AtMost (exit_store e) v = record { sum = v.sum; stores = v.stores }
  Step-AtMost {y} (stop_task {t} e h f g) v = record {
    sum = v.sum;
    stores =
        update_all (λ s. Within y.increments) y.threads t (halted (y.threads t)) v.stores
          (halted-Within y.increments (y.threads t) (v.stores t));
  }
  Step-AtMost {y} (thread_begin t e) v = moved y t compare_i 0 v tt
  Step-AtMost {y} (thread_skip t e g) v = moved y t ended y.i v tt
  Step-AtMost {y} (thread_enter t e h) v = moved y t add y.i v tt
  Step-AtMost {y} (thread_leave t e h) v = moved y t idle y.i v tt
  Step-AtMost (add_at_once t a e) v = absurd (false≢true a)
  Step-AtMost {y} (add_load t a e) v = moved y t (store_sum y.shared_data) y.i v v.sum
  Step-AtMost {y} (add_store t {r} e) v = record {
    sum = wrapped-le r y.increments (subst (Within y.increments) e (v.stores t));
    stores =
        update_all (λ s. Within (y.increments + 1)) y.threads t load_i
          (λ s. Within-suc y.increments (y.threads s) (v.stores s)) tt;
  }
  Step-AtMost {y} (thread_load t e) v = moved y t (store_i y.i) y.i v tt
  Step-AtMost {y} (thread_store t {r} e) v = moved y t compare_i (r + 1) v tt
  Step-AtMost {y} (thread_end t e g) v = moved y t ended y.i v tt

  Reach-AtMost : {y : Module} → Reach false iters y → AtMost y
  unfolding Within
  Reach-AtMost start = record { sum = omega arith; stores = λ s. tt }
  Reach-AtMost (later r st) = Step-AtMost st (Reach-AtMost r)

  -- In every reachable state of the program without `atomic_add`, `shared_data` is at most the number
  -- of the increments done.
  pub plain-at_most : {y : Module} → Reach false iters y → y.shared_data ≤ y.increments
  plain-at_most r = (Reach-AtMost r).sum
