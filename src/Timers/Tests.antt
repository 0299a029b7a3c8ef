-- ===== src/Timers/Tests.antt =====
-- The modules of labs/lab1 along short runs, and the theorems at inputs.
use cse422_archive.Base.{ℕ, ◌+◌, ◌≤◌, ◌<◌, ◌≡◌, refl, ◌≢◌, arith}
use cse422_archive.Timers.System.{
  missing, asleep, ended, joining, removed, create_thread, create_failed, start_timer, count_round,
  fall_asleep, resume, go_on, terminate, timer_expire, cancel_timer, stop_thread, all_stopped,
  joined, Reach, start, later, Steps, Module,
}
use cse422_archive.Timers.Rounds.{iters-bound}
use cse422_archive.Timers.Stopped.{removed-ended}
use cse422_archive.Timers.Missing.{missing-stuck}
use cse422_archive.Timers.Removal.{removal-hangs}

asleep-present : asleep ≢ missing
asleep-present e = cc

abbrev four_created : (y : Module) × Reach 4 y
four_created = (
  _,
  later
      (later
        (later
          (later (later start (create_thread refl (omega arith)))
            (create_thread refl (omega arith)))
          (create_thread refl (omega arith)))
        (create_thread refl (omega arith)))
      (start_timer refl (omega arith)),
)

-- The third thread sleeps.
abbrev one_asleep : (y : Module) × Reach 4 y
one_asleep = (
  _,
  later (later four_created.1 (count_round 2 (omega arith) refl))
      (fall_asleep 2 (omega arith) refl refl),
)

four_present : (i : ℕ) → i < 4 → (one_asleep.0.threads i).line ≢ missing
four_present i h = ground arith

abbrev second_round : (y : Module) × Reach 4 y
second_round = (
  _,
  later
      (later
        (later (later one_asleep.1 (timer_expire refl four_present))
          (resume 2 (omega arith) refl refl))
        (go_on 2 (omega arith) refl refl))
      (count_round 2 (omega arith) refl),
)

iters-bound_example : (second_round.0.threads 2).iters ≤ 1 + 1
iters-bound_example = iters-bound 4 2 second_round.1 refl

abbrev one_removed : (y : Module) × Reach 1 y
one_removed = (
  _,
  later
      (later
        (later
          (later
            (later
              (later
                (later
                  (later
                    (later (later start (create_thread refl (omega arith)))
                      (start_timer refl (omega arith)))
                    (count_round 0 (omega arith) refl))
                  (fall_asleep 0 (omega arith) refl refl))
                (cancel_timer refl))
              (stop_thread refl (omega arith) asleep-present))
            (resume 0 (omega arith) refl refl))
          (terminate 0 (omega arith) refl refl))
        (joined refl refl))
      (all_stopped refl (omega arith)),
)

removed-ended_example : (one_removed.0.threads 0).line ≡ ended
removed-ended_example = removed-ended 1 0 one_removed.1 refl (omega arith)

-- The second of two threads could not be created.
abbrev one_missing : (y : Module) × Reach 2 y
one_missing = (
  _,
  later (later (later start (create_thread refl (omega arith))) (create_failed refl (omega arith)))
      (start_timer refl (omega arith)),
)

missing-stuck_example : (one_missing.0.expirations ≡ 0) × (one_missing.0.phase ≢ removed)
missing-stuck_example = missing-stuck 2 1 one_missing.1 (omega arith) refl

removal-hangs_example :
    (y : Module) × Reach 1 y × ((z : Module) → Steps 1 y z → z.phase ≡ joining 0)
removal-hangs_example = removal-hangs 1 (omega arith)
