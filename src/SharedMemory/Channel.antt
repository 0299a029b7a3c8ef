-- ===== src/SharedMemory/Channel.antt =====
-- The two programs of studios/studio13 seen from outside: a channel that delivers one array.
use cse422_archive.Base.{
  ℕ, ◌<◌, ◌≡◌, refl, ◌⊎◌, inl, inr, Bool, true, false, if◌then◌else◌, Bool-cases,
}
use cse422_archive.SharedMemory.System.{
  Leader, Follower, announce, await_write, fetch, unlink, acknowledge, follower_done, LeaderMove,
  found_follower, rand_word, populated, publish_word, published, notified, acknowledged,
  FollowerMove, announced, found_write, fetch_word, fetched, unlinked, confirmed, Step, lead,
  follow, Reach, SharedData, System,
}
use cse422_archive.SharedMemory.Invariant.{has_notified, has_seen, has_acked, Reach-Holds, Inv}

pub data Channel : Type 0 where
  empty : Channel
  full : (words : ℕ → ℕ) → Channel
  delivered : (words : ℕ → ℕ) → Channel

-- The steps of a channel: one array is sent, and it arrives with the same first `size` words.
pub data Delivery (size : ℕ) : Channel → Channel → Type 0 where
  send : {words : ℕ → ℕ} → Delivery size empty (full words)
  deliver :
      {words copy : ℕ → ℕ}
      → ((j : ℕ) → j < size → copy j ≡ words j)
      → Delivery size (full words) (delivered copy)

-- What a system shows: nothing until the leader has set `read_guard`, then the leader's array, and the
-- follower's one from the setting of `delete_guard` on.
abbrev shows : Bool → Bool → (ℕ → ℕ) → (ℕ → ℕ) → Channel
shows told read larr farr = if told then (if read then delivered farr else full larr) else empty

pub channel : System → Channel
channel y = shows (has_notified y.leader) (has_acked y.follower) y.leader_arr y.follower_arr

unseen-unacked : (f : Follower) → has_seen f ≡ false → has_acked f ≡ false
unseen-unacked announce h = refl
unseen-unacked await_write h = refl
unseen-unacked (fetch i) h = refl
unseen-unacked unlink h = refl
unseen-unacked acknowledge h = refl
unseen-unacked follower_done h = cc

module _ (size : ℕ) where
  unacked : (f : Follower) → (has_seen f ≡ false) ⊎ (false ≡ true) → has_acked f ≡ false
  unacked f (inl h) = unseen-unacked f h
  unacked f (inr h) = cc

  abbrev Follows : Channel → Channel → Type 0
  Follows c c' = (c' ≡ c) ⊎ Delivery size c c'

  Leader-Follows :
      {m : SharedData} {larr : ℕ → ℕ} {m' : SharedData} {l l' : Leader} {larr' : ℕ → ℕ}
      (f : Follower) (farr : ℕ → ℕ)
      → LeaderMove size m larr l m' l' larr'
      → Inv size m l larr f farr
      → Follows
          (shows (has_notified l) (has_acked f) larr farr)
          (shows (has_notified l') (has_acked f) larr' farr)
  Leader-Follows f farr (found_follower g) v = inl refl
  Leader-Follows f farr (rand_word value lt) v = inl refl
  Leader-Follows f farr (populated h) v = inl refl
  Leader-Follows f farr (publish_word lt) v = inl refl
  Leader-Follows f farr (published h) v = inl refl
  Leader-Follows f farr notified v = inr (rw (unacked f v.seen) send)
  Leader-Follows f farr (acknowledged g) v = inl refl

  Follower-Follows :
      {m : SharedData} {farr : ℕ → ℕ} {m' : SharedData} (l : Leader) (larr : ℕ → ℕ)
      {f f' : Follower} {farr' : ℕ → ℕ}
      → FollowerMove size m farr f m' f' farr'
      → Inv size m l larr f farr
      → Follows
          (shows (has_notified l) (has_acked f) larr farr)
          (shows (has_notified l) (has_acked f') larr farr')
  Follower-Follows l larr announced v = inl refl
  Follower-Follows l larr (found_write g) v = inl refl
  Follower-Follows l larr (fetch_word lt) v = inl refl
  Follower-Follows l larr (fetched h) v = inl refl
  Follower-Follows l larr unlinked v = inl refl
  Follower-Follows l larr confirmed v = elim (Bool-cases (has_notified l)) [
    | inl e ↦ rw e (inr (deliver (λ j h. v.fetched_words j h h)))
    | inr e ↦ rw e (inl refl)
  ]

  -- From a reachable state each step of the two processes either leaves the channel that they show as
  -- it is, or is a step of the channel: the sending of an array, or its arrival with the same words.
  pub Step-refines :
      {y z : System}
      → Reach size y
      → Step size y z
      → (channel z ≡ channel y) ⊎ Delivery size (channel y) (channel z)
  unfolding channel
  Step-refines {y} r (lead mv) = Leader-Follows y.follower y.follower_arr mv (Reach-Holds size r)
  Step-refines {y} r (follow mv) = Follower-Follows y.leader y.leader_arr mv (Reach-Holds size r)
