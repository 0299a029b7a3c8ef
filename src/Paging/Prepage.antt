-- ===== src/Paging/Prepage.antt =====
-- `do_fault`, the pre-paging loop and `paging_mmap` of labs/lab2/mod/paging.c.
use mathlib.Core.Path.{subst}
use native.Mathlib.Nat.{mod-eq_of_lt}
use cse422_archive.Base.{
  ℕ, zero, suc, ◌+◌, ◌-◌, ◌*◌, ◌%◌, ◌≤◌, ◌<◌, ◌≡◌, refl, ◌∙◌, inl, inr, Bool, true, false, ◌&&◌,
  ◌||◌, List, [], ◌∷◌, arith, ltb, ◌==◌, Bool-cases,
}
use cse422_archive.Paging.Kernel.{Cmd, and_then, Call, Run, ok, oops, out_of_fuel, Kernel, State}
use cse422_archive.Paging.Driver.{
  do_fault, paging_vma_fault, after_fault, prepage, VmFault, vm_fault_oom, vm_fault_sigbus,
  vm_fault_nopage, MmapResult, mapped, enomem, faulted, Vma,
}
use cse422_archive.Paging.Ledger.{Keeps, do_fault-Balanced, Balanced}

-- Some call has mapped a page at this address.
unfoldable pub remapped : ℕ → List Call → Bool
remapped a [] = false
remapped a (Call.remap_pfn_range b p status ∷ cs) = (a == b) && (status == 0) || remapped a cs
remapped a (_ ∷ cs) = remapped a cs

-- A state that follows: no mapped page is forgotten, and the `pa_state_struct`s are untouched.
abbrev pub Grows : State → State → Type 0
Grows s t =
    ((a : ℕ) → remapped a s.calls ≡ true → remapped a t.calls ≡ true) × (t.pa_states ≡ s.pa_states)

abbrev Reached : ℕ → VmFault → State → Type 0
Reached a vm_fault_nopage t = remapped a t.calls ≡ true
Reached a _ t = Unit

module _ {A : Type 0} (P : A → State → Type 0) where
  pub Keeps-pair :
      (Q : A → State → Type 0) (r : Run A) → Keeps P r → Keeps Q r → Keeps (λ a t. P a t × Q a t) r
  Keeps-pair Q (ok a t) p q = (p, q)
  Keeps-pair Q oops p q = tt
  Keeps-pair Q out_of_fuel p q = p

  pub Keeps-mono :
      (Q : A → State → Type 0) (r : Run A)
      → Keeps P r
      → ((a : A) (t : State) → P a t → Q a t)
      → Keeps Q r
  Keeps-mono Q (ok a t) p f = f a t p
  Keeps-mono Q oops p f = tt
  Keeps-mono Q out_of_fuel p f = p

  pub Keeps-bind :
      {B : Type 0} (Q : B → State → Type 0) (r : Run A) (f : A → Cmd B)
      → Keeps P r
      → ((a : A) (t : State) → P a t → Keeps Q (f a t))
      → Keeps Q (and_then r f)
  Keeps-bind Q (ok a t) f p next = next a t p
  Keeps-bind Q oops f p next = tt
  Keeps-bind Q out_of_fuel f p next = p

pub Keeps-ok :
    {A : Type 0} (P : A → State → Type 0) {r : Run A} {x : A} {t : State}
    → Keeps P r
    → r ≡ ok x t
    → P x t
Keeps-ok P h e = subst (Keeps P) e h

pub Keeps-all :
    {A : Type 0} (P : ℕ → A → State → Type 0) (r : Run A)
    → ((x : ℕ) → Keeps (P x) r)
    → Keeps (λ a t. (x : ℕ) → P x a t) r
Keeps-all P (ok a t) p = p
Keeps-all P oops p = tt
Keeps-all P out_of_fuel p = p 0

module _ (k : Kernel) where
  do_fault-grows :
      (addr x : ℕ) (s : State)
      → Keeps (λ _ t. remapped x s.calls ≡ true → remapped x t.calls ≡ true) (do_fault k addr s)
  unfolding do_fault remapped
  do_fault-grows addr x s = ground arith

  pub do_fault-pa_states :
      (addr : ℕ) (s : State) → Keeps (λ _ t. t.pa_states ≡ s.pa_states) (do_fault k addr s)
  unfolding do_fault
  do_fault-pa_states addr s = ground arith

  pub paging_vma_fault-pa_states :
      (vma : Vma) (address : ℕ) (s : State)
      → Keeps (λ _ t. t.pa_states ≡ s.pa_states) (paging_vma_fault k vma address s)
  unfolding paging_vma_fault
  paging_vma_fault-pa_states vma address s = do_fault-pa_states address s

  do_fault-Reached :
      (addr : ℕ) (s : State) → Keeps (Reached (k.page_align addr)) (do_fault k addr s)
  unfolding do_fault remapped
  do_fault-Reached addr s = ground arith

  abbrev Faulted : ℕ → State → VmFault → State → Type 0
  Faulted addr s r t = Reached (k.page_align addr) r t × (Grows s t × Balanced t)

  do_fault-Faulted :
      (addr : ℕ) (s : State) → Balanced s → Keeps (Faulted addr s) (do_fault k addr s)
  do_fault-Faulted addr s b = Keeps-pair _ _ _ (do_fault-Reached addr s) (
      Keeps-pair _ _ _
        (Keeps-pair _ _ _ (Keeps-all _ _ (λ x. do_fault-grows addr x s))
          (do_fault-pa_states addr s))
        (do_fault-Balanced k addr s b))

  -- Every page of the range has been mapped, one page size after another.
  abbrev pub Covers : ℕ → ℕ → State → Type 0
  Covers addr vm_end t =
      (i : ℕ)
      → addr + i * k.page_size < vm_end
      → remapped (k.page_align (addr + i * k.page_size)) t.calls ≡ true

  abbrev pub CoversIf : MmapResult → ℕ → ℕ → State → Type 0
  CoversIf mapped addr vm_end t = Covers addr vm_end t
  CoversIf _ addr vm_end t = Unit

  abbrev pub Prepaged : ℕ → ℕ → State → MmapResult → State → Type 0
  Prepaged addr vm_end s r t = CoversIf r addr vm_end t × (Grows s t × Balanced t)

  Covers-step :
      (addr vm_end : ℕ) (t : State)
      → remapped (k.page_align addr) t.calls ≡ true
      → Covers (addr + k.page_size) vm_end t
      → Covers addr vm_end t
  Covers-step addr vm_end t first rest zero h =
      let e : addr + 0 * k.page_size ≡ addr = omega arith in rw e first
  Covers-step addr vm_end t first rest (suc i) h =
      let e : addr + suc i * k.page_size ≡ addr + k.page_size + i * k.page_size = omega arith in
      rw e (rest i (omega (arith, e)))

  after_fault-Prepaged :
      (addr vm_end : ℕ) (s : State) (r : VmFault) (t : State) (next : Cmd MmapResult)
      → Faulted addr s r t
      → Keeps (Prepaged (addr + k.page_size) vm_end t) (next t)
      → Keeps (Prepaged addr vm_end s) (after_fault r next t)
  unfolding after_fault
  after_fault-Prepaged addr vm_end s vm_fault_oom t next f rest = (tt, f.1)
  after_fault-Prepaged addr vm_end s vm_fault_sigbus t next f rest = (tt, f.1)
  after_fault-Prepaged addr vm_end s vm_fault_nopage t next f rest =
      Keeps-mono _ _ (next t) rest λ r u p.
        (join r u p.0 (p.1.0.0 _ f.0), ((λ x h. p.1.0.0 x (f.1.0.0 x h), p.1.0.1 ∙ f.1.0.1), p.1.1))
    where
      join :
          (r : MmapResult) (u : State)
          → CoversIf r (addr + k.page_size) vm_end u
          → remapped (k.page_align addr) u.calls ≡ true
          → CoversIf r addr vm_end u
      join mapped u c first = Covers-step addr vm_end u first c
      join enomem u c first = tt
      join (faulted v) u c first = tt

  module _ (vm_end : ℕ) (pos : 0 < k.page_size) (fits : vm_end + k.page_size ≤ k.ulong_mod) where
    wrap_id : (addr : ℕ) → addr < vm_end → (addr + k.page_size) % k.ulong_mod ≡ addr + k.page_size
    wrap_id addr h = mod-eq_of_lt (omega arith)

    pub prepage-Prepaged :
        (fuel addr : ℕ) (s : State)
        → vm_end - addr < fuel
        → Balanced s
        → Keeps (Prepaged addr vm_end s) (prepage k fuel addr vm_end s)
    unfolding prepage
    prepage-Prepaged zero addr s enough b = elim enough [ ]
    prepage-Prepaged (suc fuel) addr s enough b = elim (Bool-cases (ltb addr vm_end)) [
      | inr e ↦ rw e (λ i h. absurd (ground arith), ((λ x h. h, refl), b))
      | inl e ↦ rw e (
          Keeps-bind _ _ (do_fault k addr s) _ (do_fault-Faulted addr s b) λ r t f.
            after_fault-Prepaged addr vm_end s r t _ f (
              rw (wrap_id addr (ground arith))
                (prepage-Prepaged fuel (addr + k.page_size) t (ground arith) (f.1.1))))
    ]
