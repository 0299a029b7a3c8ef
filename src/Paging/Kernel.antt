-- ===== src/Paging/Kernel.antt =====
-- What labs/lab2/mod/paging.c keeps, and the kernel that it calls. The kernel is a parameter: it
-- answers each call by the calls made before it. Commands pass the state on and may stop at an
-- oops.
use cse422_archive.Base.{
  ℕ, ◌+◌, ◌-◌, ◌%◌, ◌^◌, Option, none, some, List, [], ◌∷◌, ◌==◌, if◌then◌else◌, update,
}

-- A call of the kernel, with its reply. A page stands for its page frame number.
pub data Call : Type 0 where
  alloc_page : (reply : Option ℕ) → Call
  free_page : (page : ℕ) → Call
  remap_pfn_range : (address page status : ℕ) → Call
  kmalloc : (reply : Option ℕ) → Call
  kfree : (address : ℕ) → Call
  misc_register : (status : ℕ) → Call
  misc_deregister : Call

-- The kernel's side: constants and the replies, each from the calls so far (the latest first).
pub record Kernel : Type 0 where
  pub page_size : ℕ
  pub ulong_mod : ℕ
  pub page_align : ℕ → ℕ
  pub vm_io : ℕ
  pub vm_dontcopy : ℕ
  pub vm_dontexpand : ℕ
  pub vm_noreserve : ℕ
  pub vm_dontdump : ℕ
  pub vm_pfnmap : ℕ
  pub alloc_reply : List Call → Option ℕ
  pub remap_reply : List Call → ℕ → ℕ → ℕ
  pub kmalloc_reply : List Call → Option ℕ
  pub register_reply : List Call → ℕ

-- `struct ref_page_node`, with its own address.
pub record RefPageNode : Type 0 where
  pub address : ℕ
  pub page : ℕ

-- The module's globals, the live `struct pa_state_struct`s (their `ref_count` by address), and the
-- calls made. `alloc_count`, `free_count` and `ref_count` are 32-bit atomics.
pub record State : Type 0 where
  pub demand_paging : ℕ
  pub ref_page_list : List RefPageNode
  pub alloc_count : ℕ
  pub free_count : ℕ
  pub pa_states : ℕ → Option ℕ
  pub calls : List Call

pub data Run (A : Type 0) : Type 0 where
  ok : A → State → Run A
  oops : Run A
  out_of_fuel : Run A

abbrev pub Cmd : Type 0 → Type 0
Cmd A = State → Run A

abbrev pub and_then : {A B : Type 0} → Run A → (A → Cmd B) → Run B
and_then (ok a s) f = f a s
and_then oops f = oops
and_then out_of_fuel f = out_of_fuel

infixl 5 ◌>>=◌ ◌>>◌
abbrev pub ◌>>=◌ : {A B : Type 0} → Cmd A → (A → Cmd B) → Cmd B
◌>>=◌ m f s = and_then (m s) f

abbrev pub ◌>>◌ : {B : Type 0} → Cmd (Unit {0}) → Cmd B → Cmd B
m >> k = m >>= λ _. k

abbrev pub pure : {A : Type 0} → A → Cmd A
pure a s = ok a s

abbrev pub fail : {A : Type 0} → Cmd A
fail s = oops

abbrev pub atomic_inc : ℕ → ℕ
atomic_inc n = (n + 1) % 2 ^ 32

abbrev pub atomic_dec : ℕ → ℕ
atomic_dec n = (n + 2 ^ 32 - 1) % 2 ^ 32

-- The kernel calls as commands: each is logged with its reply.
abbrev pub log : Call → State → State
log c s = record s { calls = c ∷ s.calls }

abbrev pub call_alloc_page : Kernel → Cmd (Option ℕ)
call_alloc_page k s = let r = k.alloc_reply s.calls in ok r (log (alloc_page r) s)

abbrev pub call_remap : Kernel → ℕ → ℕ → Cmd ℕ
call_remap k address page s =
    let r = k.remap_reply s.calls address page in ok r (log (remap_pfn_range address page r) s)

abbrev pub call_kmalloc : Kernel → Cmd (Option ℕ)
call_kmalloc k s = let r = k.kmalloc_reply s.calls in ok r (log (kmalloc r) s)

abbrev pub call_free_page : ℕ → Cmd (Unit {0})
call_free_page p s = ok tt (log (free_page p) s)

abbrev pub call_kfree : ℕ → Cmd (Unit {0})
call_kfree a s = ok tt (log (kfree a) s)

-- `list_add` puts a node behind the list's head, `list_del` unlinks the node at an address.
abbrev pub list_add : RefPageNode → Cmd (Unit {0})
list_add n s = ok tt (record s { ref_page_list = n ∷ s.ref_page_list })

abbrev pub erase_node : ℕ → List RefPageNode → List RefPageNode
erase_node a [] = []
erase_node a (n ∷ ns) = if n.address == a then ns else n ∷ erase_node a ns

abbrev pub list_del : ℕ → Cmd (Unit {0})
list_del a s = ok tt (record s { ref_page_list = erase_node a s.ref_page_list })

abbrev pub count_alloc : Cmd (Unit {0})
count_alloc s = ok tt (record s { alloc_count = atomic_inc s.alloc_count })

abbrev pub count_free : Cmd (Unit {0})
count_free s = ok tt (record s { free_count = atomic_inc s.free_count })

-- The `ref_count` behind a `vm_private_data`: a null or a freed pointer is an oops.
unfoldable pub load_ref_count : ℕ → Cmd ℕ
load_ref_count a s = elim (s.pa_states a) [ none ↦ oops | some n ↦ ok n s ]

abbrev pub store_ref_count : ℕ → ℕ → Cmd (Unit {0})
store_ref_count a n s = ok tt (record s { pa_states = update s.pa_states a (some n) })

abbrev pub drop_pa_state : ℕ → Cmd (Unit {0})
drop_pa_state a s = ok tt (record s { pa_states = update s.pa_states a none })
