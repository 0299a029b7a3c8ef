-- ===== src/Threads/Tests.antt =====
-- studios/studio8 along short runs, and the theorems at inputs.
use cse422_archive.Base.{◌%◌, ◌^◌, ◌≡◌, refl, ◌≢◌, true, false, arith}
use cse422_archive.Threads.State.{removed, add, error_task, task, Module}
use cse422_archive.Threads.System.{
  init_clear, init_enter, init_leave, create_done, create_failed, check_task, check_error,
  wake_task, bind_task, init_next, init_put, init_finish, exit_clear, exit_enter, stop_task,
  thread_begin, thread_skip, thread_enter, add_at_once, add_load, add_store, Reach, start, later,
}
use cse422_archive.Threads.Counting.{atomic-counted}
use cse422_archive.Threads.Unloading.{removed-running}

task-ne-error : task 0 ≢ error_task
task-ne-error e = cc

abbrev one_added : (y : Module) × Reach true 1 y
one_added = (
  _,
  later
      (later
        (later
          (later
            (later
              (later (later (later start (init_clear refl)) (init_enter refl (omega arith)))
                (create_done refl (omega arith)))
              (check_task refl (omega arith) task-ne-error))
            (wake_task {t = 0} refl (omega arith) refl))
          (thread_begin 0 refl))
        (thread_enter 0 refl (omega arith)))
      (add_at_once 0 refl refl),
)

one_added_value : one_added.0.shared_data ≡ 1
one_added_value = refl

atomic-counted_example : one_added.0.shared_data ≡ one_added.0.increments % 2 ^ 32
atomic-counted_example = atomic-counted 1 one_added.1

task-ne-error_1 : task 1 ≢ error_task
task-ne-error_1 e = cc

-- The first of two threads has loaded the sum.
abbrev first_woken : (y : Module) × Reach false 1 y
first_woken = (
  _,
  later
      (later
        (later (later (later start (init_clear refl)) (init_enter refl (omega arith)))
          (create_done refl (omega arith)))
        (check_task refl (omega arith) task-ne-error))
      (wake_task {t = 0} refl (omega arith) refl),
)

abbrev first_loaded : (y : Module) × Reach false 1 y
first_loaded = (
  _,
  later (later (later first_woken.1 (thread_begin 0 refl)) (thread_enter 0 refl (omega arith)))
      (add_load 0 refl refl),
)

-- The second is at the test of its loop.
abbrev both_running : (y : Module) × Reach false 1 y
both_running = (
  _,
  later
      (later
        (later
          (later
            (later
              (later
                (later (later first_loaded.1 (bind_task {t = 0} refl (omega arith) refl))
                  (init_next refl))
                (init_put refl))
              (init_enter refl (omega arith)))
            (create_done refl (omega arith)))
          (check_task refl (omega arith) task-ne-error_1))
        (wake_task {t = 1} refl (omega arith) refl))
      (thread_begin 1 refl),
)

-- Both add to the same sum.
abbrev one_lost : (y : Module) × Reach false 1 y
one_lost = (
  _,
  later
      (later
        (later (later both_running.1 (thread_enter 1 refl (omega arith))) (add_load 1 refl refl))
        (add_store 0 refl))
      (add_store 1 refl),
)

one_lost_values : (one_lost.0.shared_data ≡ 1) × (one_lost.0.increments ≡ 2)
one_lost_values = (refl, refl)

-- One thread could be created, and three could not.
abbrev one_of_four : (y : Module) × Reach false 5 y
one_of_four = (
  _,
  later
      (later
        (later
          (later
            (later
              (later (later (later start (init_clear refl)) (init_enter refl (omega arith)))
                (create_done refl (omega arith)))
              (check_task refl (omega arith) task-ne-error))
            (wake_task {t = 0} refl (omega arith) refl))
          (bind_task {t = 0} refl (omega arith) refl))
        (init_next refl))
      (init_put refl),
)

abbrev second_failed : (y : Module) × Reach false 5 y
second_failed = (
  _,
  later
      (later
        (later
          (later (later one_of_four.1 (init_enter refl (omega arith)))
            (create_failed refl (omega arith)))
          (check_error refl (omega arith) refl))
        (init_next refl))
      (init_put refl),
)

abbrev third_failed : (y : Module) × Reach false 5 y
third_failed = (
  _,
  later
      (later
        (later
          (later (later second_failed.1 (init_enter refl (omega arith)))
            (create_failed refl (omega arith)))
          (check_error refl (omega arith) refl))
        (init_next refl))
      (init_put refl),
)

abbrev fourth_failed : (y : Module) × Reach false 5 y
fourth_failed = (
  _,
  later
      (later
        (later
          (later (later third_failed.1 (init_enter refl (omega arith)))
            (create_failed refl (omega arith)))
          (check_error refl (omega arith) refl))
        (init_next refl))
      (init_put refl),
)

-- The removal has asked the thread to stop, which it has done.
abbrev one_stopped : (y : Module) × Reach false 5 y
one_stopped = (
  _,
  later
      (later
        (later
          (later (later (later fourth_failed.1 (init_leave refl (omega arith))) (init_finish refl))
            (exit_clear refl))
          (exit_enter refl (omega arith)))
        (stop_task {t = 0} refl (omega arith) refl refl))
      (thread_skip 0 refl refl),
)

removed-running_example :
    (y : Module) × Reach true 1000000 y
    × (y.main ≡ removed)
    × (y.threads 0 ≡ add)
    × (y.should_stop 0 ≡ false)
removed-running_example = removed-running true 1000000 (omega arith)
