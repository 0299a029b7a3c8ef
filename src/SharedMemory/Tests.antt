-- ===== src/SharedMemory/Tests.antt =====
-- A hand-over of one word in studios/studio13, and the theorems along it.
use cse422_archive.Base.{◌≡◌, refl, ◌≢◌, ◌⊎◌, inr, arith}
use cse422_archive.SharedMemory.System.{
  await_write, follower_done, found_follower, rand_word, populated, publish_word, published,
  notified, acknowledged, announced, found_write, fetch_word, fetched, unlinked, confirmed, Step,
  lead, follow, Reach, start, later, System,
}
use cse422_archive.SharedMemory.Channel.{channel, Step-refines, Delivery}
use cse422_archive.SharedMemory.Handover.{progress}

-- The leader is about to publish its word.
abbrev publishing : (z : System) × Reach 1 z
publishing = (
  _,
  later
      (later (later (later start (follow announced)) (lead (found_follower (omega arith))))
        (lead (rand_word 7 (omega arith))))
      (lead (populated (omega arith))),
)

-- The follower is about to set `delete_guard`.
abbrev fetched_all : (z : System) × Reach 1 z
fetched_all = (
  _,
  later
      (later
        (later
          (later
            (later
              (later (later publishing.1 (lead (publish_word (omega arith))))
                (lead (published (omega arith))))
              (lead notified))
            (follow (found_write (omega arith))))
          (follow (fetch_word (omega arith))))
        (follow (fetched (omega arith))))
      (follow unlinked),
)

-- Both processes have finished.
abbrev handed_over : (z : System) × Reach 1 z
handed_over =
    (_, later (later fetched_all.1 (follow confirmed)) (lead (acknowledged (omega arith))))

handed_over_word : handed_over.0.follower_arr 0 ≡ 7
handed_over_word = refl

await_write-ne-done : await_write ≢ follower_done
await_write-ne-done e = cc

progress_example : (z : System) × Step 1 publishing.0 z
progress_example = progress 1 publishing.1 (inr await_write-ne-done)

abbrev confirmed_system : (z : System) × Step 1 fetched_all.0 z
confirmed_system = (_, follow confirmed)

Step-refines_example :
    (channel confirmed_system.0 ≡ channel fetched_all.0)
    ⊎ Delivery 1 (channel fetched_all.0) (channel confirmed_system.0)
Step-refines_example = Step-refines 1 fetched_all.1 confirmed_system.1
