-- ===== src/SharedMemory/Handover.antt =====
-- What the guards of studios/studio13 achieve: a correct copy, and no deadlock.
use cse422_archive.Base.{ℕ, ◌<◌, ◌≡◌, refl, ◌≢◌, ◌⊎◌, inl, inr, true, arith, dec_lt}
use cse422_archive.SharedMemory.System.{
  Leader, await_follower, populate, publish, notify, await_read, leader_done, Follower, announce,
  await_write, fetch, unlink, acknowledge, follower_done, found_follower, rand_word, populated,
  publish_word, published, notified, acknowledged, announced, found_write, fetch_word, fetched,
  unlinked, confirmed, Step, lead, follow, Reach, SharedData, System,
}
use cse422_archive.SharedMemory.Invariant.{taken, has_acked, Holds, Reach-Holds, Inv}

-- The fields of a system apart, so that the program counters can be matched.
abbrev system : SharedData → Leader → (ℕ → ℕ) → Follower → (ℕ → ℕ) → System
system m l larr f farr = record {
  shared = m;
  leader = l;
  leader_arr = larr;
  follower = f;
  follower_arr = farr;
}

module _ (size : ℕ) (m : SharedData) (larr farr : ℕ → ℕ) where
  abbrev Next : Leader → Follower → Type 0
  Next l f = (z : System) × Step size (system m l larr f farr) z

  -- A leader that does not wait can move.
  populate-Next : (i : ℕ) (f : Follower) → Next (populate i) f
  populate-Next i f = elim (dec_lt i size) [
    | yes lt ↦ (_, lead (rand_word 0 lt))
    | no ge ↦ (_, lead (populated (omega arith)))
  ]

  publish-Next : (i : ℕ) (f : Follower) → Next (publish i) f
  publish-Next i f = elim (dec_lt i size) [
    | yes lt ↦ (_, lead (publish_word lt))
    | no ge ↦ (_, lead (published (omega arith)))
  ]

  fetch-Next : (l : Leader) (i : ℕ) → Next l (fetch i)
  fetch-Next l i = elim (dec_lt i size) [
    | yes lt ↦ (_, follow (fetch_word lt))
    | no ge ↦ (_, follow (fetched (omega arith)))
  ]

  step_exists :
      (l : Leader) (f : Follower)
      → Inv size m l larr f farr
      → (l ≢ leader_done) ⊎ (f ≢ follower_done)
      → Next l f
  step_exists (populate i) f v h = populate-Next i f
  step_exists (publish i) f v h = publish-Next i f
  step_exists notify f v h = (_, lead notified)
  step_exists await_follower announce v h = (_, follow announced)
  step_exists await_follower await_write v h =
      (_, lead (found_follower (ground (arith, v.write_set))))
  step_exists await_follower (fetch i) v h = fetch-Next await_follower i
  step_exists await_follower unlink v h = (_, follow unlinked)
  step_exists await_follower acknowledge v h = (_, follow confirmed)
  step_exists await_follower follower_done v h =
      (_, lead (found_follower (ground (arith, v.write_set))))
  step_exists await_read announce v h = (_, follow announced)
  step_exists await_read await_write v h = (_, follow (found_write (ground (arith, v.read_set))))
  step_exists await_read (fetch i) v h = fetch-Next await_read i
  step_exists await_read unlink v h = (_, follow unlinked)
  step_exists await_read acknowledge v h = (_, follow confirmed)
  step_exists await_read follower_done v h = (_, lead (acknowledged (ground (arith, v.delete_set))))
  step_exists leader_done announce v h = (_, follow announced)
  step_exists leader_done await_write v h = (_, follow (found_write (ground (arith, v.read_set))))
  step_exists leader_done (fetch i) v h = fetch-Next leader_done i
  step_exists leader_done unlink v h = (_, follow unlinked)
  step_exists leader_done acknowledge v h = (_, follow confirmed)
  step_exists leader_done follower_done v (inl h) = absurd (h refl)
  step_exists leader_done follower_done v (inr h) = absurd (h refl)

acked-taken : (size : ℕ) (f : Follower) → has_acked f ≡ true → taken size f ≡ size
acked-taken size follower_done h = refl
acked-taken size announce h = cc
acked-taken size await_write h = cc
acked-taken size (fetch i) h = cc
acked-taken size unlink h = cc
acked-taken size acknowledge h = cc

module _ (size : ℕ) {y : System} (r : Reach size y) where
  v : Holds size y
  v = Reach-Holds size r

  -- In every reachable state in which the leader has finished, the follower's array is the
  -- leader's, word for word.
  pub handover : (j : ℕ) → j < size → y.leader ≡ leader_done → y.follower_arr j ≡ y.leader_arr j
  handover j h e = ground (arith, v.finished, v.fetched_words j, acked-taken size y.follower)

  -- In no reachable state does the leader write to the shared array while the follower reads it.
  pub no_overlap : (i k : ℕ) → y.leader ≡ publish i → y.follower ≢ fetch k
  no_overlap i k e e' = ground (arith, v.seen)

  -- No deadlock: in every reachable state in which one of the two has not finished, one of them can
  -- take a step.
  pub progress :
      (y.leader ≢ leader_done) ⊎ (y.follower ≢ follower_done) → (z : System) × Step size y z
  progress h = step_exists size y.shared y.leader_arr y.follower_arr y.leader y.follower v h
