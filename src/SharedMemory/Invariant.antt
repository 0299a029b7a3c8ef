-- ===== src/SharedMemory/Invariant.antt =====
-- What the guards of studios/studio13 say about the two processes, in every reachable state.
use cse422_archive.Base.{ℕ, ◌<◌, ◌≡◌, refl, ◌⊎◌, inl, inr, Bool, true, false, arith}
use cse422_archive.SharedMemory.System.{
  Leader, await_follower, populate, publish, notify, await_read, leader_done, Follower, announce,
  await_write, fetch, unlink, acknowledge, follower_done, LeaderMove, found_follower, rand_word,
  populated, publish_word, published, notified, acknowledged, FollowerMove, announced, found_write,
  fetch_word, fetched, unlinked, confirmed, lead, follow, Reach, start, later, SharedData, System,
}

-- The words that the leader has published, and that the follower has fetched.
abbrev pub sent : ℕ → Leader → ℕ
sent size await_follower = 0
sent size (populate i) = 0
sent size (publish i) = i
sent size _ = size

abbrev pub taken : ℕ → Follower → ℕ
taken size announce = 0
taken size await_write = 0
taken size (fetch i) = i
taken size _ = size

-- The leader has set `read_guard`; the follower has seen it; the follower has set `delete_guard`.
abbrev pub has_notified : Leader → Bool
has_notified await_read = true
has_notified leader_done = true
has_notified _ = false

abbrev pub has_seen : Follower → Bool
has_seen announce = false
has_seen await_write = false
has_seen _ = true

abbrev pub has_acked : Follower → Bool
has_acked follower_done = true
has_acked _ = false

abbrev pub has_announced : Follower → Bool
has_announced announce = false
has_announced _ = true

abbrev pub is_finished : Leader → Bool
is_finished leader_done = true
is_finished _ = false

module _ (size : ℕ) where
  -- The state without the three guards' history: what links data, counters and arrays.
  pub record Inv (m : SharedData) (l : Leader) (larr : ℕ → ℕ) (f : Follower) (farr : ℕ → ℕ)
      : Type 0 where
    pub read : (m.read_guard ≡ 0) ⊎ (has_notified l ≡ true)
    pub seen : (has_seen f ≡ false) ⊎ (has_notified l ≡ true)
    pub acked : (m.delete_guard ≡ 0) ⊎ (has_acked f ≡ true)
    pub finished : (is_finished l ≡ false) ⊎ (has_acked f ≡ true)
    pub write_set : (has_announced f ≡ false) ⊎ (0 < m.write_guard)
    pub read_set : (has_notified l ≡ false) ⊎ (0 < m.read_guard)
    pub delete_set : (has_acked f ≡ false) ⊎ (0 < m.delete_guard)
    pub wrote : (j : ℕ) → j < sent size l → j < size → m.words j ≡ larr j
    pub fetched_words : (j : ℕ) → j < taken size f → j < size → farr j ≡ larr j

  idle-taken : (f : Follower) → has_seen f ≡ false → taken size f ≡ 0
  idle-taken announce h = refl
  idle-taken await_write h = refl
  idle-taken (fetch i) h = cc
  idle-taken unlink h = cc
  idle-taken acknowledge h = cc
  idle-taken follower_done h = cc

  -- A move of the leader keeps the invariant.
  Leader-Inv :
      {m : SharedData} {larr : ℕ → ℕ} {m' : SharedData} {l l' : Leader} {larr' : ℕ → ℕ}
      (f : Follower) (farr : ℕ → ℕ)
      → LeaderMove size m larr l m' l' larr'
      → Inv m l larr f farr
      → Inv m' l' larr' f farr
  Leader-Inv f farr (found_follower g) v = record {
    read = ground arith;
    seen = ground arith;
    acked = v.acked;
    finished = ground arith;
    write_set = v.write_set;
    read_set = inl refl;
    delete_set = v.delete_set;
    wrote = λ j a b. ground arith;
    fetched_words = λ j a b. ground (arith, v.fetched_words j);
  }
  Leader-Inv f farr (rand_word value lt) v = record {
    read = ground arith;
    seen = ground arith;
    acked = v.acked;
    finished = ground arith;
    write_set = v.write_set;
    read_set = inl refl;
    delete_set = v.delete_set;
    wrote = λ j a b. ground arith;
    fetched_words = λ j a b. ground (arith, idle-taken f);
  }
  Leader-Inv f farr (populated h) v = record {
    read = ground arith;
    seen = ground arith;
    acked = v.acked;
    finished = ground arith;
    write_set = v.write_set;
    read_set = inl refl;
    delete_set = v.delete_set;
    wrote = λ j a b. ground arith;
    fetched_words = v.fetched_words;
  }
  Leader-Inv f farr (publish_word lt) v = record {
    read = ground arith;
    seen = ground arith;
    acked = v.acked;
    finished = ground arith;
    write_set = v.write_set;
    read_set = inl refl;
    delete_set = v.delete_set;
    wrote = λ j a b. ground (arith, v.wrote j);
    fetched_words = v.fetched_words;
  }
  Leader-Inv f farr (published h) v = record {
    read = ground arith;
    seen = ground arith;
    acked = v.acked;
    finished = ground arith;
    write_set = v.write_set;
    read_set = inl refl;
    delete_set = v.delete_set;
    wrote = λ j a b. v.wrote j (omega arith) b;
    fetched_words = v.fetched_words;
  }
  Leader-Inv f farr notified v = record {
    read = inr refl;
    seen = inr refl;
    acked = v.acked;
    finished = inl refl;
    write_set = v.write_set;
    read_set = inr (omega arith);
    delete_set = v.delete_set;
    wrote = v.wrote;
    fetched_words = v.fetched_words;
  }
  Leader-Inv f farr (acknowledged g) v = record {
    read = inr refl;
    seen = inr refl;
    acked = v.acked;
    finished = ground arith;
    write_set = v.write_set;
    read_set = ground arith;
    delete_set = v.delete_set;
    wrote = v.wrote;
    fetched_words = v.fetched_words;
  }

  sent-all : (l : Leader) → has_notified l ≡ true → sent size l ≡ size
  sent-all await_follower h = cc
  sent-all (populate i) h = cc
  sent-all (publish i) h = cc
  sent-all notify h = cc
  sent-all await_read h = refl
  sent-all leader_done h = refl

  -- So does a move of the follower.
  Follower-Inv :
      {m : SharedData} {farr : ℕ → ℕ} {m' : SharedData} (l : Leader) (larr : ℕ → ℕ)
      {f f' : Follower} {farr' : ℕ → ℕ}
      → FollowerMove size m farr f m' f' farr'
      → Inv m l larr f farr
      → Inv m' l larr f' farr'
  Follower-Inv l larr announced v = record {
    read = v.read;
    seen = inl refl;
    acked = ground arith;
    finished = ground arith;
    write_set = inr (omega arith);
    read_set = v.read_set;
    delete_set = inl refl;
    wrote = v.wrote;
    fetched_words = v.fetched_words;
  }
  Follower-Inv l larr (found_write g) v = record {
    read = v.read;
    seen = ground arith;
    acked = ground arith;
    finished = ground arith;
    write_set = ground arith;
    read_set = v.read_set;
    delete_set = inl refl;
    wrote = v.wrote;
    fetched_words = λ j a b. absurd (omega arith);
  }
  Follower-Inv l larr (fetch_word lt) v = record {
    read = v.read;
    seen = ground arith;
    acked = ground arith;
    finished = ground arith;
    write_set = ground arith;
    read_set = v.read_set;
    delete_set = inl refl;
    wrote = v.wrote;
    fetched_words = λ j a b. ground (arith, v.fetched_words j, v.wrote j, sent-all l);
  }
  Follower-Inv l larr (fetched h) v = record {
    read = v.read;
    seen = ground arith;
    acked = ground arith;
    finished = ground arith;
    write_set = ground arith;
    read_set = v.read_set;
    delete_set = inl refl;
    wrote = v.wrote;
    fetched_words = λ j a b. v.fetched_words j (omega arith) b;
  }
  Follower-Inv l larr unlinked v = record {
    read = v.read;
    seen = ground arith;
    acked = ground arith;
    finished = ground arith;
    write_set = ground arith;
    read_set = v.read_set;
    delete_set = inl refl;
    wrote = v.wrote;
    fetched_words = v.fetched_words;
  }
  Follower-Inv l larr confirmed v = record {
    read = v.read;
    seen = ground arith;
    acked = inr refl;
    finished = inr refl;
    write_set = ground arith;
    read_set = v.read_set;
    delete_set = inr (omega arith);
    wrote = v.wrote;
    fetched_words = v.fetched_words;
  }

  abbrev pub Holds : System → Type 0
  Holds y = Inv y.shared y.leader y.leader_arr y.follower y.follower_arr

  pub Reach-Holds : {y : System} → Reach size y → Holds y
  Reach-Holds start = record {
    read = inl refl;
    seen = inl refl;
    acked = inl refl;
    finished = inl refl;
    write_set = inl refl;
    read_set = inl refl;
    delete_set = inl refl;
    wrote = λ j a b. absurd (omega arith);
    fetched_words = λ j a b. absurd (omega arith);
  }
  Reach-Holds (later {y} r (lead mv)) = Leader-Inv y.follower y.follower_arr mv (Reach-Holds r)
  Reach-Holds (later {y} r (follow mv)) = Follower-Inv y.leader y.leader_arr mv (Reach-Holds r)
