-- ===== src/Threads/Counting.antt =====
-- What the threads of studios/studio8 count.
use cse422_archive.Base.{ℕ, ◌+◌, ◌%◌, ◌^◌, ◌≡◌, refl, sym, true, arith, update, update_all}
use cse422_archive.Threads.State.{
  woken, halted, Thread, unborn, begin, compare_i, add, store_sum, load_i, store_i, idle, ended,
  Module,
}
use cse422_archive.Threads.System.{
  Step, init_clear, init_enter, init_leave, create_done, create_failed, check_task, check_error,
  wake_task, wake_other, bind_task, bind_other, past_entries, init_next, init_put, init_finish,
  exit_clear, exit_enter, exit_leave, exit_check_task, exit_check_error, stop_task, stop_again,
  stop_other, joined, exit_load, exit_store, thread_begin, thread_skip, thread_enter, thread_leave,
  add_at_once, add_load, add_store, thread_load, thread_store, thread_end, Reach, start, later,
}
use mathlib.Core.Path.{subst}
use mathlib.Core.Bool.{false≢true}

-- The thread has loaded nothing for an increment.
NotStoring : Thread → Type 0
NotStoring (store_sum r) = ⊥
NotStoring unborn = Unit
NotStoring begin = Unit
NotStoring compare_i = Unit
NotStoring add = Unit
NotStoring load_i = Unit
NotStoring (store_i r) = Unit
NotStoring idle = Unit
NotStoring ended = Unit

woken-NotStoring : (l : Thread) → NotStoring l → NotStoring (woken l)
unfolding NotStoring
woken-NotStoring unborn h = tt
woken-NotStoring begin h = h
woken-NotStoring compare_i h = h
woken-NotStoring add h = h
woken-NotStoring (store_sum r) h = h
woken-NotStoring load_i h = h
woken-NotStoring (store_i r) h = h
woken-NotStoring idle h = h
woken-NotStoring ended h = h

halted-NotStoring : (l : Thread) → NotStoring l → NotStoring (halted l)
unfolding NotStoring
halted-NotStoring unborn h = tt
halted-NotStoring begin h = h
halted-NotStoring compare_i h = h
halted-NotStoring add h = h
halted-NotStoring (store_sum r) h = h
halted-NotStoring load_i h = h
halted-NotStoring (store_i r) h = h
halted-NotStoring idle h = h
halted-NotStoring ended h = h

record Exact (y : Module) : Type 0 where
  counted : y.shared_data ≡ y.increments % 2 ^ 32
  none_storing : (s : ℕ) → NotStoring (y.threads s)

module _ (iters : ℕ) where
  moved :
      (y : Module) (t : ℕ) (l : Thread) (i : ℕ)
      → Exact y
      → NotStoring l
      → Exact (record y { i = i; threads = update y.threads t l })
  moved y t l i v p = record {
    counted = v.counted;
    none_storing = update_all (λ s. NotStoring) y.threads t l v.none_storing p;
  }

  Step-Exact : {y z : Module} → Step true iters y z → Exact y → Exact z
  unfolding NotStoring
  Step-Exact (init_clear e) v = record { counted = v.counted; none_storing = v.none_storing }
  Step-Exact (init_enter e h) v = record { counted = v.counted; none_storing = v.none_storing }
  Step-Exact (init_leave e h) v = record { counted = v.counted; none_storing = v.none_storing }
  Step-Exact (create_done e h) v = record { counted = v.counted; none_storing = v.none_storing }
  Step-Exact (create_failed e h) v = record { counted = v.counted; none_storing = v.none_storing }
  Step-Exact (check_task e h f) v = record { counted = v.counted; none_storing = v.none_storing }
  Step-Exact (check_error e h f) v = record { counted = v.counted; none_storing = v.none_storing }
  Step-Exact {y} (wake_task {t} e h f) v = record {
    counted = v.counted;
    none_storing =
        update_all (λ s. NotStoring) y.threads t (woken (y.threads t)) v.none_storing
          (woken-NotStoring (y.threads t) (v.none_storing t));
  }
  Step-Exact (wake_other e h f) v = record { counted = v.counted; none_storing = v.none_storing }
  Step-Exact (bind_task e h f) v = record { counted = v.counted; none_storing = v.none_storing }
  Step-Exact (bind_other e h f) v = record { counted = v.counted; none_storing = v.none_storing }
  Step-Exact (past_entries e h) v = record { counted = v.counted; none_storing = v.none_storing }
  Step-Exact (init_next e) v = record { counted = v.counted; none_storing = v.none_storing }
  Step-Exact (init_put e) v = record { counted = v.counted; none_storing = v.none_storing }
  Step-Exact (init_finish e) v = record { counted = refl; none_storing = v.none_storing }
  Step-Exact (exit_clear e) v = record { counted = v.counted; none_storing = v.none_storing }
  Step-Exact (exit_enter e h) v = record { counted = v.counted; none_storing = v.none_storing }
  Step-Exact (exit_leave e h) v = record { counted = v.counted; none_storing = v.none_storing }
  Step-Exact (exit_check_task e h f) v = record {
    counted = v.counted;
    none_storing = v.none_storing;
  }
  Step-Exact (exit_check_error e h f) v = record {
    counted = v.counted;
    none_storing = v.none_storing;
  }
  Step-Exact (stop_again e h f g) v = record { counted = v.counted; none_storing = v.none_storing }
  Step-Exact (stop_other e h f) v = record { counted = v.counted; none_storing = v.none_storing }
  Step-Exact (joined e f) v = record { counted = v.counted; none_storing = v.none_storing }
  Step-Exact (exit_load e) v = record { counted = v.counted; none_storing = v.none_storing }
  Step-Exact (exit_store e) v = record { counted = v.counted; none_storing = v.none_storing }
  Step-Exact {y} (stop_task {t} e h f g) v = record {
    counted = v.counted;
    none_storing =
        update_all (λ s. NotStoring) y.threads t (halted (y.threads t)) v.none_storing
          (halted-NotStoring (y.threads t) (v.none_storing t));
  }
  Step-Exact {y} (thread_begin t e) v = moved y t compare_i 0 v tt
  Step-Exact {y} (thread_skip t e g) v = moved y t ended y.i v tt
  Step-Exact {y} (thread_enter t e h) v = moved y t add y.i v tt
  Step-Exact {y} (thread_leave t e h) v = moved y t idle y.i v tt
  Step-Exact {y} (add_at_once t a e) v = record {
    counted = omega (arith, v.counted);
    none_storing = update_all (λ s. NotStoring) y.threads t load_i v.none_storing tt;
  }
  Step-Exact (add_load t a e) v = absurd (false≢true (sym a))
  Step-Exact (add_store t e) v = absurd (subst NotStoring e (v.none_storing t))
  Step-Exact {y} (thread_load t e) v = moved y t (store_i y.i) y.i v tt
  Step-Exact {y} (thread_store t {r} e) v = moved y t compare_i (r + 1) v tt
  Step-Exact {y} (thread_end t e g) v = moved y t ended y.i v tt

  Reach-Exact : {y : Module} → Reach true iters y → Exact y
  unfolding NotStoring
  Reach-Exact start = record { counted = refl; none_storing = λ s. tt }
  Reach-Exact (later r st) = Step-Exact st (Reach-Exact r)

  -- In every reachable state of the program with `atomic_add`, `shared_data` is the number of the
  -- increments done, since `atomic_set` where it has run, modulo 2^32.
  pub atomic-counted : {y : Module} → Reach true iters y → y.shared_data ≡ y.increments % 2 ^ 32
  atomic-counted r = (Reach-Exact r).counted
