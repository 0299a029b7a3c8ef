-- ===== src/Threads/Overflow.antt =====
-- The loading of studios/studio8 and its threads share one loop counter.
use cse422_archive.Base.{
  ℕ, zero, suc, ◌≤◌, ◌<◌, ◌≡◌, refl, ap, ◌∙◌, inl, inr, Bool, true, false, arith, Bool-cases,
  update_self,
}
use cse422_archive.Threads.State.{Main, bind, compare_i, add, store_sum, load_i, Module}
use cse422_archive.Threads.System.{
  init_clear, init_enter, create_done, check_task, wake_task, past_entries, thread_begin,
  thread_enter, add_at_once, add_load, add_store, thread_load, thread_store, Reach, start, later,
}

module _ (atomic : Bool) (iters : ℕ) where
  -- The first thread is at the test of its loop with the counter at `n`, and the module at `l`.
  pub record Racing (l : Main) (n : ℕ) : Type 0 where
    pub y : Module
    pub reach : Reach atomic iters y
    pub thread : y.threads 0 ≡ compare_i
    pub counter : y.i ≡ n
    pub main : y.main ≡ l
    pub not_asked : y.should_stop 0 ≡ false

  -- An increment, whichever way it is done.
  incremented :
      (y : Module)
      → Reach atomic iters y
      → y.threads 0 ≡ add
      → (z : Module) × Reach atomic iters z
        × (z.threads 0 ≡ load_i)
        × (z.i ≡ y.i)
        × (z.main ≡ y.main)
        × (z.should_stop ≡ y.should_stop)
  incremented y r e = elim (Bool-cases atomic) [
    | inl a ↦ (_, later r (add_at_once 0 a e), update_self y.threads 0 load_i, refl, refl, refl)
    | inr a ↦ (
      _,
      later (later r (add_load 0 a e))
          (add_store 0 {r = y.shared_data} (update_self y.threads 0 (store_sum y.shared_data))),
      refl,
      refl,
      refl,
      refl,
    )
  ]

  next_round : (l : Main) (n : ℕ) → n < iters → Racing l n → Racing l (suc n)
  next_round l n h v =
      let (z, r, e, i, m, s) =
        incremented _ (later v.reach (thread_enter 0 v.thread (omega (arith, v.counter)))) refl in
      record {
        y = _;
        reach = later (later r (thread_load 0 e)) (thread_store 0 {r = z.i} refl);
        thread = refl;
        counter = omega (arith, i, v.counter);
        main = m ∙ v.main;
        not_asked = ap (λ f. f 0) s ∙ v.not_asked;
      }

  -- The thread counts on while the module stays where it is.
  pub racing : (l : Main) (n : ℕ) → n ≤ iters → Racing l 0 → Racing l n
  racing l zero h v = v
  racing l (suc n) h v = next_round l n (omega arith) (racing l n (omega arith) v)

  first_woken : Racing bind 0
  first_woken = record {
    y = _;
    reach =
        later
          (later
            (later
              (later (later (later start (init_clear refl)) (init_enter refl (omega arith)))
                (create_done refl (omega arith)))
              (check_task refl (omega arith) (λ e. cc)))
            (wake_task {t = 0} refl (omega arith) refl))
          (thread_begin 0 refl);
    thread = refl;
    counter = refl;
    main = refl;
    not_asked = refl;
  }

  -- Where a thread makes at least four rounds, there is a run in which the loading of the module,
  -- having woken its first thread, accesses an entry past the end of `arr_taskptr`.
  pub overflow-reached : 4 ≤ iters → (y : Module) × Reach atomic iters y × (y.overflowed ≡ true)
  overflow-reached h =
      let v = racing bind 4 h first_woken in
      (_, later v.reach (past_entries (rw v.main refl) (omega (arith, v.counter))), refl)
