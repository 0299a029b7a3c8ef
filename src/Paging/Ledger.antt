-- ===== src/Paging/Ledger.antt =====
-- Which pages the module of labs/lab2/mod/paging.c owes the kernel, read off the calls that it
-- made.
use mathlib.Core.Option
use mathlib.Core.Path.{subst}
use cse422_archive.Base.{
  ℕ, ◌+◌, ◌%◌, ◌^◌, ◌<◌, ◌≡◌, refl, Option, none, some, List, [], ◌∷◌, arith, ◌==◌, if◌then◌else◌,
  length,
}
use cse422_archive.Paging.Kernel.{
  atomic_inc, erase_node, Call, Run, ok, oops, out_of_fuel, Kernel, RefPageNode, State,
}
use cse422_archive.Paging.Driver.{do_fault, paging_vma_fault, release_pages, release_all, Vma}

-- Takes one copy of a page out; `none` if it is not there.
unfoldable pub take_out : ℕ → List ℕ → Option (List ℕ)
take_out p [] = none
take_out p (q ∷ qs) = if q == p then some qs else Option.map (λ r. q ∷ r) (take_out p qs)

abbrev pub after_free : ℕ → Option (List ℕ) → Option (List ℕ)
after_free p none = none
after_free p (some qs) = take_out p qs

abbrev pub after_alloc : Option ℕ → Option (List ℕ) → Option (List ℕ)
after_alloc none h = h
after_alloc (some p) h = Option.map (λ r. p ∷ r) h

-- The pages allocated and not freed; `none` once a page is freed that was not held.
unfoldable pub held : List Call → Option (List ℕ)
unfolding take_out
held [] = some []
held (Call.alloc_page r ∷ cs) = after_alloc r (held cs)
held (Call.free_page p ∷ cs) = after_free p (held cs)
held (_ ∷ cs) = held cs

abbrev pub pages : List RefPageNode → List ℕ
pages [] = []
pages (n ∷ ns) = n.page ∷ pages ns

-- Every page that the kernel gave and did not get back is on the module's list, and the two
-- counters differ by the list's length.
pub record Balanced (s : State) : Type 0 where
  pub outstanding : held s.calls ≡ some (pages s.ref_page_list)
  pub counted : s.alloc_count ≡ (s.free_count + length s.ref_page_list) % 2 ^ 32
  pub small : s.free_count < 2 ^ 32

-- What holds of a run that returns. A run may stop at an oops, and has enough fuel.
abbrev pub Keeps : {A : Type 0} → (A → State → Type 0) → Run A → Type 0
Keeps P (ok a s) = P a s
Keeps P oops = Unit
Keeps P out_of_fuel = ⊥

module _ (k : Kernel) where
  pub do_fault-Balanced :
      (addr : ℕ) (s : State) → Balanced s → Keeps (λ _ t. Balanced t) (do_fault k addr s)
  unfolding do_fault held
  do_fault-Balanced addr s b = ground arith

  pub paging_vma_fault-Balanced :
      (vma : Vma) (addr : ℕ) (s : State)
      → Balanced s
      → Keeps (λ _ t. Balanced t) (paging_vma_fault k vma addr s)
  unfolding paging_vma_fault
  paging_vma_fault-Balanced vma addr s b = do_fault-Balanced addr s b

erase_node_head :
    (n : RefPageNode) (ns : List RefPageNode) (s : State)
    → s.ref_page_list ≡ n ∷ ns
    → erase_node n.address s.ref_page_list ≡ ns
erase_node_head n ns s e = ground arith

-- One round of the loop in `paging_vma_close`.
abbrev released : RefPageNode → State → State
released n s = record s {
  ref_page_list = erase_node n.address s.ref_page_list;
  free_count = atomic_inc s.free_count;
  calls = Call.kfree n.address ∷ Call.free_page n.page ∷ s.calls;
}

released-Balanced :
    (n : RefPageNode) (ns : List RefPageNode) (s : State)
    → s.ref_page_list ≡ n ∷ ns
    → Balanced s
    → Balanced (released n s)
unfolding held
released-Balanced n ns s e b = ground (arith, erase_node_head n ns s e)

-- A run that cannot fail: it returns, with no oops.
abbrev pub Ends : {A : Type 0} → (A → State → Type 0) → Run A → Type 0
Ends P (ok a s) = P a s
Ends P oops = ⊥
Ends P out_of_fuel = ⊥

pub Ends-ok :
    {A : Type 0} (P : A → State → Type 0) {r : Run A} {x : A} {t : State}
    → Ends P r
    → r ≡ ok x t
    → P x t
Ends-ok P h e = subst (Ends P) e h

pub Ends-mono :
    {A : Type 0} (P Q : A → State → Type 0) (r : Run A)
    → Ends P r
    → ((a : A) (t : State) → P a t → Q a t)
    → Ends Q r
Ends-mono P Q (ok a t) h f = f a t h
Ends-mono P Q oops h f = h
Ends-mono P Q out_of_fuel h f = h

abbrev pub Emptied : State → State → Type 0
Emptied s t = Balanced t × (t.ref_page_list ≡ []) × (t.pa_states ≡ s.pa_states)

pub release_pages-Emptied :
    (ns : List RefPageNode) (s : State)
    → s.ref_page_list ≡ ns
    → Balanced s
    → Ends (λ _ t. Emptied s t) (release_pages ns s)
unfolding release_pages
release_pages-Emptied [] s e b = (b, e, refl)
release_pages-Emptied (n ∷ ns) s e b =
    release_pages-Emptied ns (released n s) (erase_node_head n ns s e)
      (released-Balanced n ns s e b)

pub release_all-Emptied : (s : State) → Balanced s → Ends (λ _ t. Emptied s t) (release_all s)
unfolding release_all
release_all-Emptied s b = release_pages-Emptied s.ref_page_list s refl b
