-- ===== src/Threads/Stopped.antt =====
-- In studios/studio8 a thread that has been asked to stop has ended, or is waited for.
use cse422_archive.Base.{
  ℕ, ◌≡◌, refl, sym, ap, ◌∙◌, ◌≢◌, ◌⊎◌, inl, inr, Bool, true, ℕ_discrete, update, update_ne,
  update_all,
}
use cse422_archive.Threads.State.{
  woken, halted, uses_entry, Main, clear, test, create, check, wake, bind, next, put, finish,
  loaded, exit_test, exit_check, stop, join, exit_next, exit_put, Thread, begin, compare_i, add,
  store_sum, load_i, store_i, idle, ended, Module,
}
use cse422_archive.Threads.System.{
  Step, init_clear, init_enter, init_leave, create_done, create_failed, check_task, check_error,
  wake_task, wake_other, bind_task, bind_other, past_entries, init_next, init_put, init_finish,
  exit_clear, exit_enter, exit_leave, exit_check_task, exit_check_error, stop_task, stop_again,
  stop_other, joined, exit_load, exit_store, thread_begin, thread_skip, thread_enter, thread_leave,
  add_at_once, add_load, add_store, thread_load, thread_store, thread_end, Reach, start, later,
}
use mathlib.Core.Path.{subst}

uses_entry-join : (l : Main) (t : ℕ) → uses_entry l ≡ true → l ≢ join t
uses_entry-join l t u e = cc

woken-ended : (l : Thread) → l ≡ ended → woken l ≡ ended
woken-ended l e = rw e refl

Answered : Module → Type 0
Answered y = (t : ℕ) → y.should_stop t ≡ true → (y.main ≡ join t) ⊎ (y.threads t ≡ ended)

-- Where the module waits for no thread, each thread that was asked to stop has ended.
settled :
    (y : Module) (l : Main)
    → y.main ≡ l
    → ((t : ℕ) → l ≢ join t)
    → Answered y
    → (t : ℕ) → y.should_stop t ≡ true
    → y.threads t ≡ ended
unfolding Answered
settled y l e ne v t s = elim (v t s) [ inl j ↦ absurd (ne t (sym e ∙ j)) | inr d ↦ d ]

-- A thread that has not ended moves.
moved :
    (y : Module) (t : ℕ) (l m : Thread)
    → y.threads t ≡ l
    → l ≢ ended
    → Answered y
    → (s : ℕ) → y.should_stop s ≡ true
    → (y.main ≡ join s) ⊎ (update y.threads t m s ≡ ended)
unfolding Answered
moved y t l m e ne v s a = elim (v s a) [
  | inl j ↦ inl j
  | inr d ↦ inr (update_ne y.threads {i = t} {j = s} m (λ p. ne (sym e ∙ ap y.threads p ∙ d)) ∙ d)
]

join-injective : {s t : ℕ} → join s ≡ join t → s ≡ t
join-injective e = cc

module _ (atomic : Bool) (iters : ℕ) where
  Step-Answered : {y z : Module} → Step atomic iters y z → Answered y → Answered z
  unfolding Answered
  Step-Answered {y} (init_clear e) v = λ t s. inr (settled y clear e (λ t p. cc) v t s)
  Step-Answered {y} (init_enter e h) v = λ t s. inr (settled y test e (λ t p. cc) v t s)
  Step-Answered {y} (init_leave e h) v = λ t s. inr (settled y test e (λ t p. cc) v t s)
  Step-Answered {y} (create_done e h) v = λ t s. inr (settled y create e (λ t p. cc) v t s)
  Step-Answered {y} (create_failed e h) v = λ t s. inr (settled y create e (λ t p. cc) v t s)
  Step-Answered {y} (check_task e h f) v = λ t s. inr (settled y check e (λ t p. cc) v t s)
  Step-Answered {y} (check_error e h f) v = λ t s. inr (settled y check e (λ t p. cc) v t s)
  Step-Answered {y} (wake_task {t} e h f) v =
      let was = settled y wake e (λ t p. cc) v in
      λ s a. inr (
        update_all (λ s u. y.should_stop s ≡ true → u ≡ ended) y.threads t (woken (y.threads t)) was
          (λ a. woken-ended (y.threads t) (was t a)) s a)
  Step-Answered {y} (wake_other e h f) v = λ t s. inr (settled y wake e (λ t p. cc) v t s)
  Step-Answered {y} (bind_task e h f) v = λ t s. inr (settled y bind e (λ t p. cc) v t s)
  Step-Answered {y} (bind_other e h f) v = λ t s. inr (settled y bind e (λ t p. cc) v t s)
  Step-Answered {y} (past_entries e h) v =
      λ t s. inr (settled y y.main refl (λ t. uses_entry-join y.main t e) v t s)
  Step-Answered {y} (init_next e) v = λ t s. inr (settled y next e (λ t p. cc) v t s)
  Step-Answered {y} (init_put e) v = λ t s. inr (settled y (put _) e (λ t p. cc) v t s)
  Step-Answered {y} (init_finish e) v = λ t s. inr (settled y finish e (λ t p. cc) v t s)
  Step-Answered {y} (exit_clear e) v = λ t s. inr (settled y loaded e (λ t p. cc) v t s)
  Step-Answered {y} (exit_enter e h) v = λ t s. inr (settled y exit_test e (λ t p. cc) v t s)
  Step-Answered {y} (exit_leave e h) v = λ t s. inr (settled y exit_test e (λ t p. cc) v t s)
  Step-Answered {y} (exit_check_task e h f) v =
      λ t s. inr (settled y exit_check e (λ t p. cc) v t s)
  Step-Answered {y} (exit_check_error e h f) v =
      λ t s. inr (settled y exit_check e (λ t p. cc) v t s)
  Step-Answered {y} (stop_task {t} e h f g) v = λ s a. elim (ℕ_discrete t s) [
    | yes p ↦ inl (ap join p)
    | no ne ↦ inr (
        update_ne y.threads (halted (y.threads t)) ne
        ∙ settled y stop e (λ t p. cc) v s (sym (update_ne y.should_stop true ne) ∙ a))
  ]
  Step-Answered {y} (stop_again e h f g) v = λ t s. inr (settled y stop e (λ t p. cc) v t s)
  Step-Answered {y} (stop_other e h f) v = λ t s. inr (settled y stop e (λ t p. cc) v t s)
  Step-Answered {y} (joined {t} e f) v = λ s a. elim (v s a) [
    | inl j ↦ inr (subst (λ x. y.threads x ≡ ended) (join-injective (sym e ∙ j)) f)
    | inr d ↦ inr d
  ]
  Step-Answered {y} (exit_load e) v = λ t s. inr (settled y exit_next e (λ t p. cc) v t s)
  Step-Answered {y} (exit_store e) v = λ t s. inr (settled y (exit_put _) e (λ t p. cc) v t s)
  Step-Answered {y} (thread_begin t e) v = moved y t begin compare_i e (λ p. cc) v
  Step-Answered {y} (thread_skip t e g) v = moved y t begin ended e (λ p. cc) v
  Step-Answered {y} (thread_enter t e h) v = moved y t compare_i add e (λ p. cc) v
  Step-Answered {y} (thread_leave t e h) v = moved y t compare_i idle e (λ p. cc) v
  Step-Answered {y} (add_at_once t a e) v = moved y t add load_i e (λ p. cc) v
  Step-Answered {y} (add_load t a e) v = moved y t add (store_sum y.shared_data) e (λ p. cc) v
  Step-Answered {y} (add_store t e) v = moved y t (store_sum _) load_i e (λ p. cc) v
  Step-Answered {y} (thread_load t e) v = moved y t load_i (store_i y.i) e (λ p. cc) v
  Step-Answered {y} (thread_store t e) v = moved y t (store_i _) compare_i e (λ p. cc) v
  Step-Answered {y} (thread_end t e g) v = moved y t idle ended e (λ p. cc) v

  Reach-Answered : {y : Module} → Reach atomic iters y → Answered y
  unfolding Answered
  Reach-Answered start = λ t s. cc
  Reach-Answered (later r st) = Step-Answered st (Reach-Answered r)

  -- In every reachable state a thread that has been asked to stop has ended, or the removal waits for
  -- it.
  asked-ended :
      {y : Module} (t : ℕ)
      → Reach atomic iters y
      → y.should_stop t ≡ true
      → (y.main ≡ join t) ⊎ (y.threads t ≡ ended)
  unfolding Answered
  asked-ended t r s = Reach-Answered r t s
