-- ===== src/SharedMemory/System.antt =====
-- studios/studio13/leader.c and follower.c as two processes whose accesses to `struct shared_data`
-- interleave, one access to a step. Loops that wait on a guard take a step once the guard is set.
-- The object is new, so that `ftruncate` has filled it with zeros. `size` is SHARE_SIZE.
use cse422_archive.Base.{ℕ, suc, ◌≤◌, ◌<◌, ◌≢◌, update}

-- `struct shared_data` of studios/studio13/shared_process.h
pub record SharedData : Type 0 where
  pub write_guard : ℕ
  pub read_guard : ℕ
  pub delete_guard : ℕ
  pub words : ℕ → ℕ

pub data Leader : Type 0 where
  await_follower : Leader  -- while (data->write_guard == 0)
  populate : (i : ℕ) → Leader  -- arr[i] = rand()
  publish : (i : ℕ) → Leader  -- data->data[i] = arr[i]
  notify : Leader  -- data->read_guard = 1
  await_read : Leader  -- while (data->delete_guard == 0)
  leader_done : Leader

pub data Follower : Type 0 where
  announce : Follower  -- data->write_guard = 1
  await_write : Follower  -- while (data->read_guard == 0)
  fetch : (i : ℕ) → Follower  -- the word i of memcpy
  unlink : Follower  -- shm_unlink
  acknowledge : Follower  -- data->delete_guard = 1
  follower_done : Follower

-- The shared object, the program counters, and the array `arr` of each process.
pub record System : Type 0 where
  pub shared : SharedData
  pub leader : Leader
  pub leader_arr : ℕ → ℕ
  pub follower : Follower
  pub follower_arr : ℕ → ℕ

module _ (size : ℕ) where
  -- A step of the leader: the new shared data, program counter and array.
  pub data LeaderMove (m : SharedData) (arr : ℕ → ℕ)
      : Leader → SharedData → Leader → (ℕ → ℕ) → Type 0 where
    found_follower : m.write_guard ≢ 0 → LeaderMove m arr await_follower m (populate 0) arr
    rand_word :
        {i : ℕ} (value : ℕ)
        → i < size
        → LeaderMove m arr (populate i) m (populate (suc i)) (update arr i value)
    populated : {i : ℕ} → size ≤ i → LeaderMove m arr (populate i) m (publish 0) arr
    publish_word :
        {i : ℕ}
        → i < size
        → LeaderMove m arr
            (publish i)
            (record m { words = update m.words i (arr i) })
            (publish (suc i))
            arr
    published : {i : ℕ} → size ≤ i → LeaderMove m arr (publish i) m notify arr
    notified : LeaderMove m arr notify (record m { read_guard = 1 }) await_read arr
    acknowledged : m.delete_guard ≢ 0 → LeaderMove m arr await_read m leader_done arr

  -- A step of the follower. `(void *)data + 12` is the address of `data->data`.
  pub data FollowerMove (m : SharedData) (arr : ℕ → ℕ)
      : Follower → SharedData → Follower → (ℕ → ℕ) → Type 0 where
    announced : FollowerMove m arr announce (record m { write_guard = 1 }) await_write arr
    found_write : m.read_guard ≢ 0 → FollowerMove m arr await_write m (fetch 0) arr
    fetch_word :
        {i : ℕ}
        → i < size
        → FollowerMove m arr (fetch i) m (fetch (suc i)) (update arr i (m.words i))
    fetched : {i : ℕ} → size ≤ i → FollowerMove m arr (fetch i) m unlink arr
    unlinked : FollowerMove m arr unlink m acknowledge arr
    confirmed : FollowerMove m arr acknowledge (record m { delete_guard = 1 }) follower_done arr

  pub data Step (y : System) : System → Type 0 where
    lead :
        {m : SharedData} {p : Leader} {arr : ℕ → ℕ}
        → LeaderMove y.shared y.leader_arr y.leader m p arr
        → Step y (record y { shared = m; leader = p; leader_arr = arr })
    follow :
        {m : SharedData} {p : Follower} {arr : ℕ → ℕ}
        → FollowerMove y.shared y.follower_arr y.follower m p arr
        → Step y (record y { shared = m; follower = p; follower_arr = arr })

  abbrev pub zeroed : SharedData
  zeroed = record { write_guard = 0; read_guard = 0; delete_guard = 0; words = λ _. 0 }

  -- Both arrays are static, hence zero at first.
  pub data Reach : System → Type 0 where
    start : Reach (record {
      shared = zeroed;
      leader = await_follower;
      leader_arr = λ _. 0;
      follower = announce;
      follower_arr = λ _. 0;
    })
    later : {y z : System} → Reach y → Step y z → Reach z
