-- ===== src/Paging/Close.antt =====
-- `paging_vma_close` of labs/lab2/mod/paging.c on each of its branches.
use cse422_archive.Base.{ℕ, ◌-◌, ◌^◌, ◌<◌, ◌≡◌, none, some, [], ◌∷◌, arith, update, update_self}
use cse422_archive.Paging.Kernel.{
  Cmd, and_then, atomic_inc, atomic_dec, load_ref_count, Call, Run, ok, oops, out_of_fuel, State,
}
use cse422_archive.Paging.Driver.{
  paging_vma_open, release_all, drop_if_unused, close_at, paging_vma_close, Vma,
}
use cse422_archive.Paging.Ledger.{held, Ends, release_all-Emptied, Balanced}

Ends-bind :
    {A B : Type 0} (P : A → State → Type 0) (Q : B → State → Type 0) (r : Run A) (f : A → Cmd B)
    → Ends P r
    → ((a : A) (t : State) → P a t → Ends Q (f a t))
    → Ends Q (and_then r f)
Ends-bind P Q (ok a t) f h next = next a t h
Ends-bind P Q oops f h next = h
Ends-bind P Q out_of_fuel f h next = h

kfree-Balanced :
    (a : ℕ) (s : State)
    → Balanced s
    → Balanced (record s { pa_states = update s.pa_states a none; calls = Call.kfree a ∷ s.calls })
unfolding held
kfree-Balanced a s b = ground arith

empty-ledger :
    (s : State)
    → Balanced s
    → s.ref_page_list ≡ []
    → (held s.calls ≡ some []) × (s.alloc_count ≡ s.free_count)
empty-ledger s b e = (ground arith, ground arith)

-- Nothing is held, the counters agree, and the struct at `a` is gone.
abbrev pub AllFreed : ℕ → State → State → Type 0
AllFreed a s t =
    (held t.calls ≡ some [])
    × (t.alloc_count ≡ t.free_count)
    × (t.ref_page_list ≡ [])
    × (t.pa_states ≡ update s.pa_states a none)

drop_last :
    (a : ℕ) (s : State)
    → Balanced s
    → Ends (λ _ t. Balanced t × AllFreed a s t) (drop_if_unused a 0 s)
unfolding drop_if_unused
drop_last a s b = Ends-bind _ _ (release_all s) _ (release_all-Emptied s b) λ _ t h.
    let b' = kfree-Balanced a t h.0 in
    let (p, q) = empty-ledger _ b' h.1 in (b', (p, q, h.1, rw (h.2)))

drop_shared : (a n : ℕ) (s : State) → 0 < n → drop_if_unused a n s ≡ ok tt s
unfolding drop_if_unused
drop_shared a n s pos = ground arith

load-ok : (a n : ℕ) (s : State) → s.pa_states a ≡ some n → load_ref_count a s ≡ ok n s
unfolding load_ref_count
load-ok a n s e = rw (e, load_ref_count)

abbrev pub set_count : ℕ → ℕ → State → State
set_count a n s = record s { pa_states = update s.pa_states a (some n) }

-- `paging_vma_close` up to its test, where the struct is live.
close_at_live :
    (a n : ℕ) (s : State)
    → s.pa_states a ≡ some n
    → close_at (some a) s ≡ drop_if_unused a (atomic_dec n) (set_count a (atomic_dec n) s)
unfolding close_at
close_at_live a n s e = rw (load-ok a n s e) (
    rw (
      load-ok a (atomic_dec n) (set_count a (atomic_dec n) s)
        (update_self s.pa_states a (some (atomic_dec n)))))

-- `paging_vma_open` adds one to a live count.
pub paging_vma_open-live :
    (vma : Vma) (a n : ℕ) (s : State)
    → vma.vm_private_data ≡ some a
    → s.pa_states a ≡ some n
    → paging_vma_open vma s ≡ ok tt (set_count a (atomic_inc n) s)
unfolding paging_vma_open
paging_vma_open-live vma a n s p e = rw (p, load-ok a n s e)

pub set_count-Balanced : (a n : ℕ) (s : State) → Balanced s → Balanced (set_count a n s)
set_count-Balanced a n s b = record {
  outstanding = b.outstanding;
  counted = b.counted;
  small = b.small;
}

module _ (vma : Vma) (a : ℕ) (s : State) (b : Balanced s)
    (points : vma.vm_private_data ≡ some a) where
  -- From a balanced ledger, closing a mapping whose `pa_state_struct` is live at count 1 returns
  -- with no oops. Then every page that the module took, for whichever mapping, has been freed
  -- exactly once, its list is empty, the two counters agree, and the struct is gone.
  pub paging_vma_close-last :
      s.pa_states a ≡ some 1
      → Ends (λ _ t. Balanced t × AllFreed a (set_count a 0 s) t) (paging_vma_close vma s)
  unfolding paging_vma_close
  paging_vma_close-last e =
      rw (points, close_at_live a 1 s e) (drop_last a _ (set_count-Balanced a 0 s b))

  -- From a balanced ledger, closing at a count above 1 and below 2^32 only lowers the count: it
  -- calls nothing and frees nothing.
  pub paging_vma_close-shared :
      (n : ℕ)
      → s.pa_states a ≡ some n
      → 1 < n
      → n < 2 ^ 32
      → paging_vma_close vma s ≡ ok tt (set_count a (n - 1) s)
  unfolding paging_vma_close
  paging_vma_close-shared n e many small =
      rw (points, close_at_live a n s e, dec) (drop_shared a (n - 1) _ (omega arith))
    where
      dec : atomic_dec n ≡ n - 1
      dec = omega arith
