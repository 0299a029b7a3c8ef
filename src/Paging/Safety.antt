-- ===== src/Paging/Safety.antt =====
-- What holds of labs/lab2/mod/paging.c in every reachable state.
use cse422_archive.Paging.Close.{AllFreed, set_count}
use cse422_archive.Paging.Ledger.{
  held, pages, paging_vma_fault-Balanced, Ends, Ends-ok, Ends-mono, Balanced,
}
use cse422_archive.Paging.Prepage.{Keeps-ok, paging_vma_fault-pa_states}
use cse422_archive.Paging.Mmap.{paging_mmap-Balanced, Structs, paging_mmap-Structs}
use cse422_archive.Base.{
  ℕ, suc, ◌+◌, ◌%◌, ◌^◌, ◌≤◌, ◌<◌, ◌≡◌, refl, Option, none, some, List, [], ◌∷◌, ◌++◌, arith,
  dec_lt, length,
}
use cse422_archive.Paging.Kernel.{ok, Kernel, State}
use cse422_archive.Paging.Driver.{
  paging_vma_open, paging_vma_close, paging_mmap, kmod_paging_init, MmapResult, mapped, Vma,
}
use cse422_archive.Paging.System.{
  users, booted, Step, granted, denied, faulted_in, opened, closed, set_param, Reach, start, later,
  System,
}
use cse422_archive.Paging.Invariant.{
  live, ok-injective, left, opened_state, open_runs, open-Inv, shared_state, close_runs, last_close,
  close-Inv, last-Inv, granted-Inv, denied-Inv, same-Inv, Inv,
}

ok-state : {A : Type 0} {x y : A} {t u : State} → ok x t ≡ ok y u → t ≡ u
ok-state p = cc

module _ (k : Kernel) (pos : 0 < k.page_size) where
  -- What a return of `paging_mmap` tells.
  mmap_facts :
      (y : System) (vma : Vma) {v : Vma} {t : State} {r : MmapResult}
      → (i : Inv y) (fits : vma.vm_end + k.page_size ≤ k.ulong_mod)
      → paging_mmap k vma y.mem ≡ ok (r, v) t
      → Balanced t × Structs k pos vma fits y.mem i.balanced (k.kmalloc_reply y.mem.calls) (r, v) t
  mmap_facts y vma i fits e = (
    Keeps-ok (λ _ u. Balanced u) (paging_mmap-Balanced k pos vma fits y.mem i.balanced) e,
    Keeps-ok (Structs k pos vma fits y.mem i.balanced (k.kmalloc_reply y.mem.calls))
        (paging_mmap-Structs k pos vma fits y.mem i.balanced) e,
  )

  module _ (y : System) (vma v : Vma) (t : State) (r : MmapResult) (i : Inv y)
      (fits : vma.vm_end + k.page_size ≤ k.ulong_mod) (b : Balanced t) where
    granted-by :
        (reply : Option ℕ)
        → ((a : ℕ) → reply ≡ some a → y.mem.pa_states a ≡ none)
        → suc (length y.vmas) < 2 ^ 32
        → r ≡ mapped
        → Structs k pos vma fits y.mem i.balanced reply (r, v) t
        → Inv (record { mem = t; vmas = v ∷ y.vmas })
    granted-by none fresh few e h = cc
    granted-by (some a) fresh few e h = granted-Inv k y v a t i few (fresh a refl) h.0 h.1 b

    denied-by :
        (reply : Option ℕ)
        → ((a : ℕ) → reply ≡ some a → y.mem.pa_states a ≡ none)
        → Structs k pos vma fits y.mem i.balanced reply (r, v) t
        → Inv (record { mem = t; vmas = y.vmas })
    denied-by none fresh h = same-Inv y t i h.1 b
    denied-by (some a) fresh h = denied-Inv y a t i (fresh a refl) h.1 b

  closed-Inv :
      (y : System) (i : Inv y) (v : Vma) (xs ys : List Vma) (e : y.vmas ≡ xs ++ v ∷ ys) {t : State}
      → paging_vma_close v y.mem ≡ ok tt t
      → Inv (record { mem = t; vmas = xs ++ ys })
  unfolding shared_state
  closed-Inv y i v xs ys e ran = elim (dec_lt 0 (left y i v xs ys e)) [
    | yes more ↦
        rw (ok-injective ran (close_runs y i v xs ys e more)) (close-Inv y i v xs ys e more)
    | no last ↦
        last-Inv y i v xs ys e (omega arith)
          (Ends-ok _ (last_close y i v xs ys e (omega arith)) ran)
  ]

  paging_vma_close-Ends :
      (y : System) (i : Inv y) (v : Vma) (xs ys : List Vma)
      → y.vmas ≡ xs ++ v ∷ ys
      → Ends (λ _ t. Balanced t) (paging_vma_close v y.mem)
  unfolding shared_state
  paging_vma_close-Ends y i v xs ys e = elim (dec_lt 0 (left y i v xs ys e)) [
    | yes more ↦ rw (close_runs y i v xs ys e more) (close-Inv y i v xs ys e more).balanced
    | no last ↦
        Ends-mono
          (λ _ t.
            Balanced t
            × AllFreed (live y i v xs ys e).at (set_count (live y i v xs ys e).at 0 y.mem) t)
          _ (paging_vma_close v y.mem) (last_close y i v xs ys e (omega arith)) (λ _ t h. h.0)
  ]

  -- Every step of the system keeps the ledger balanced and the reference counts right.
  pub Step-Inv : {y z : System} → Step k y z → Inv y → Inv z
  unfolding opened_state
  Step-Inv {y} (granted vma v {t} fresh fits few e) i =
      let (b, h) = mmap_facts y vma i fits e in
      granted-by y vma v t mapped i fits b _ fresh few refl h
  Step-Inv {y} (denied vma v {t} r fresh fits refused e) i =
      let (b, h) = mmap_facts y vma i fits e in denied-by y vma v t r i fits b _ fresh h
  Step-Inv {y} (faulted_in v {t} r address xs ys e ran) i =
      same-Inv y t i
        (Keeps-ok (λ _ u. u.pa_states ≡ y.mem.pa_states)
          (paging_vma_fault-pa_states k v address y.mem) ran)
        (Keeps-ok (λ _ u. Balanced u) (paging_vma_fault-Balanced k v address y.mem i.balanced) ran)
  Step-Inv {y} (opened v xs ys e few ran) i =
      rw (ok-injective ran (open_runs y i v xs ys e few)) (open-Inv y i v xs ys e few)
  Step-Inv {y} (closed v xs ys e ran) i = closed-Inv y i v xs ys e ran
  Step-Inv {y} (set_param n) i = record {
    balanced = record {
      outstanding = i.balanced.outstanding;
      counted = i.balanced.counted;
      small = i.balanced.small;
    };
    few = i.few;
    owned = i.owned;
    shared = i.shared;
  }

  init-Inv :
      (n : ℕ) {s : State}
      → kmod_paging_init k (booted n) ≡ ok 0 s
      → Inv (record { mem = s; vmas = [] })
  unfolding kmod_paging_init held users
  init-Inv n e = rw (← ok-state e) (record {
    balanced = record { outstanding = refl; counted = refl; small = omega arith };
    few = omega arith;
    owned = tt;
    shared = λ a h. absurd (omega arith);
  })

  pub Reach-Inv : {n : ℕ} {y : System} → Reach k n y → Inv y
  Reach-Inv {n} (start e) = init-Inv n e
  Reach-Inv (later r st) = Step-Inv st (Reach-Inv r)

  -- In every reachable state, for pages of positive size, no page is leaked or freed twice: the
  -- pages that the kernel gave and did not get back are those on the module's list, in its order,
  -- and the two counters that `kmod_paging_exit` prints differ by their number, modulo 2^32.
  pub no_page_lost :
      {n : ℕ} {y : System}
      → Reach k n y
      → (held y.mem.calls ≡ some (pages y.mem.ref_page_list))
        × (y.mem.alloc_count ≡ (y.mem.free_count + length y.mem.ref_page_list) % 2 ^ 32)
  no_page_lost r = let b = (Reach-Inv r).balanced in (b.outstanding, b.counted)

  -- In every reachable state, for pages of positive size, an open mapping can be closed: there is
  -- no use after free of its `pa_state_struct`, and the ledger stays balanced.
  pub close_returns :
      {n : ℕ} {y : System} (v : Vma) (xs ys : List Vma)
      → Reach k n y
      → y.vmas ≡ xs ++ v ∷ ys
      → Ends (λ _ t. Balanced t) (paging_vma_close v y.mem)
  close_returns {y} v xs ys r e = paging_vma_close-Ends y (Reach-Inv r) v xs ys e

  -- In every reachable state with fewer than 2^32 - 1 mappings, for pages of positive size, an open
  -- mapping can be opened again: there is no oops, and the ledger stays balanced.
  pub open_returns :
      {n : ℕ} {y : System} (v : Vma) (xs ys : List Vma)
      → Reach k n y
      → y.vmas ≡ xs ++ v ∷ ys
      → suc (length y.vmas) < 2 ^ 32
      → Ends (λ _ t. Balanced t) (paging_vma_open v y.mem)
  unfolding opened_state
  open_returns {y} v xs ys r e few =
      let i = Reach-Inv r in rw (open_runs y i v xs ys e few) (open-Inv y i v xs ys e few).balanced
