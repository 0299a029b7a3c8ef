-- ===== src/Threads/Unloading.antt =====
-- The removal of the modules of studios/studio8 may leave threads behind.
use cse422_archive.Base.{
  ℕ, zero, suc, ◌≤◌, ◌<◌, ◌≡◌, refl, ap, ◌∙◌, ◌≢◌, Bool, false, arith, ℕ_discrete, update,
  update_self, update_ne,
}
use cse422_archive.Threads.State.{
  woken, test, exit_test, removed, unborn, begin, add, error_task, task, Module,
}
use cse422_archive.Threads.System.{
  init_clear, init_enter, init_leave, create_done, check_task, wake_task, bind_task, init_next,
  init_put, init_finish, exit_clear, exit_leave, thread_begin, thread_enter, Reach, start, later,
}
use mathlib.Core.Path.{subst}
use cse422_archive.Threads.Overflow.{racing, Racing}

task-ne-error : (t : ℕ) → task t ≢ error_task
task-ne-error t e = cc

module _ (atomic : Bool) (iters : ℕ) where
  -- The loading has created and woken `i` threads, none of which has run.
  record Awake (i : ℕ) : Type 0 where
    y : Module
    reach : Reach atomic iters y
    counter : y.i ≡ i
    main : y.main ≡ test
    created : y.created ≡ i
    first : 0 < i → y.threads 0 ≡ begin
    unborn_rest : (t : ℕ) → i ≤ t → y.threads t ≡ unborn
    not_asked : y.should_stop 0 ≡ false

  none_woken : Awake 0
  none_woken = record {
    y = _;
    reach = later start (init_clear refl);
    counter = refl;
    main = refl;
    created = refl;
    first = λ a. absurd (omega arith);
    unborn_rest = λ t a. refl;
    not_asked = refl;
  }

  one_more : (i : ℕ) → i < 4 → Awake i → Awake (suc i)
  one_more i h w =
      let y = w.y in
      let small : y.i < 4 = omega (arith, w.counter) in
      let entry : update y.tasks y.i (task y.created) y.i ≡ task y.created =
        update_self y.tasks y.i (task y.created) in
      let waked : woken (y.threads y.created) ≡ begin =
        ap woken (w.unborn_rest y.created (omega (arith, w.created))) in
      record {
        y = _;
        reach =
            later
              (later
                (later
                  (later
                    (later
                      (later (later w.reach (init_enter w.main small)) (create_done refl small))
                      (check_task refl small (rw entry (task-ne-error y.created))))
                    (wake_task {t = y.created} refl small entry))
                  (bind_task {t = y.created} refl small entry))
                (init_next refl))
              (init_put refl);
        counter = omega (arith, w.counter);
        main = refl;
        created = omega (arith, w.created);
        first = λ a. elim (ℕ_discrete y.created 0) [
          | yes e ↦
              subst (λ x. update y.threads y.created (woken (y.threads y.created)) x ≡ begin) e
                (update_self y.threads y.created (woken (y.threads y.created)) ∙ waked)
          | no ne ↦ update_ne y.threads _ ne ∙ w.first (omega (arith, w.created))
        ];
        unborn_rest = λ t a.
            update_ne y.threads {i = y.created} {j = t} _ (λ e. omega (arith, w.created, e))
            ∙ w.unborn_rest t (omega arith);
        not_asked = w.not_asked;
      }

  woken_to : (i : ℕ) → i ≤ 4 → Awake i
  woken_to zero h = none_woken
  woken_to (suc i) h = one_more i h (woken_to i (omega arith))

  -- The module is being removed, and its first thread begins.
  removing : Racing atomic iters exit_test 0
  removing =
      let w = woken_to 4 (omega arith) in
      record {
        y = _;
        reach =
            later
              (later
                (later (later w.reach (init_leave w.main (omega (arith, w.counter))))
                  (init_finish refl))
                (exit_clear refl))
              (thread_begin 0 (w.first (omega arith)));
        thread = refl;
        counter = refl;
        main = refl;
        not_asked = w.not_asked;
      }

  -- Where a thread makes more than four rounds, there is a run in which the module is removed while
  -- one of its threads, which has not been asked to stop, is inside its loop.
  pub removed-running :
      4 < iters
      → (y : Module) × Reach atomic iters y
        × (y.main ≡ removed)
        × (y.threads 0 ≡ add)
        × (y.should_stop 0 ≡ false)
  removed-running h =
      let v = racing atomic iters exit_test 4 (omega arith) removing in
      (
        _,
        later (later v.reach (exit_leave v.main (omega (arith, v.counter))))
            (thread_enter 0 v.thread (omega (arith, v.counter))),
        refl,
        refl,
        v.not_asked,
      )
