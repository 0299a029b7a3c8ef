-- ===== src/Paging/Refinement.antt =====
-- The handlers of labs/lab2/mod/paging.c do what Contract says.
use cse422_archive.Paging.Invariant.{
  live, ok-injective, left, opened_state, open_runs, shared_state, close_runs, last_close, Inv,
}
use cse422_archive.Paging.Safety.{Reach-Inv}
use cse422_archive.Paging.Close.{AllFreed, set_count}
use cse422_archive.Paging.Mmap.{tracked, started, paging_mmap-tracked, paging_mmap-refused}
use mathlib.Core.Path.{subst, fun_ext}
use mathlib.Core.Quot
use cse422_archive.Base.{
  ℕ, zero, suc, ◌<◌, ◌≡◌, refl, sym, ap, ◌∙◌, inl, inr, Option, none, some, List, [], ◌∷◌, ◌++◌,
  arith, dec_lt, ltb, ◌==◌, Bool-cases, Option-cases, update,
}
use cse422_archive.Paging.Kernel.{Cmd, and_then, Run, ok, oops, out_of_fuel, Kernel, State}
use cse422_archive.Paging.Driver.{
  track_page, map_page, do_fault, paging_vma_fault, paging_vma_close, after_fault, prepage,
  prepage_all, paging_mmap, VmFault, vm_fault_oom, vm_fault_sigbus, vm_fault_nopage, MmapResult,
  Vma,
}
use cse422_archive.Paging.Ledger.{pages, Ends-ok}
use cse422_archive.Paging.System.{
  IsFresh, Step, granted, denied, faulted_in, opened, closed, set_param, Reach, System,
}
use cse422_archive.Paging.Contract.{
  put, Takes-trans, faulting-Takes, Takes, no_more, Operation, granting, faulting, opening, closing,
  tuning, Performs, refuse, create, take_none, take_page, share, leave, give_back, tune, Loan,
}

abbrev pub view : State → Loan
view s = record { owed = Quot.mk (pages s.ref_page_list); users = s.pa_states }

-- What holds of a run that returns; nothing is said of the others.
abbrev IfOk : {A : Type 0} → (A → State → Type 0) → Run A → Type 0
IfOk P (ok a s) = P a s
IfOk P oops = Unit
IfOk P out_of_fuel = Unit

IfOk-bind :
    {A B : Type 0} (P : A → State → Type 0) (Q : B → State → Type 0) (r : Run A) (f : A → Cmd B)
    → IfOk P r
    → ((a : A) (t : State) → P a t → IfOk Q (f a t))
    → IfOk Q (and_then r f)
IfOk-bind P Q (ok a t) f p next = next a t p
IfOk-bind P Q oops f p next = tt
IfOk-bind P Q out_of_fuel f p next = tt

abbrev Faults : {A : Type 0} → State → A → State → Type 0
Faults s a t = Performs (view s) faulting (view t)

abbrev Follows : {A : Type 0} → State → A → State → Type 0
Follows s a t = Takes (view s) (view t)

module _ (k : Kernel) where
  track_page-Faults :
      (pg : ℕ) (node : Option ℕ) (s : State) → IfOk (Faults s) (track_page pg node s)
  unfolding track_page put
  track_page-Faults pg none s = tt
  track_page-Faults pg (some a) s = take_page pg

  map_page-Faults : (addr : ℕ) (pg : Option ℕ) (s : State) → IfOk (Faults s) (map_page k addr pg s)
  unfolding map_page
  map_page-Faults addr none s = take_none
  map_page-Faults addr (some pg) s =
      elim (Bool-cases (k.remap_reply s.calls (k.page_align addr) pg == 0)) [
        | inl e ↦ rw e (track_page-Faults pg _ _)
        | inr e ↦ rw e take_none
      ]

  do_fault-Faults : (addr : ℕ) (s : State) → IfOk (Faults s) (do_fault k addr s)
  unfolding do_fault
  do_fault-Faults addr s = map_page-Faults addr (k.alloc_reply s.calls) _

  after_fault-Follows :
      (s : State) (r : VmFault) (t : State) (next : Cmd MmapResult)
      → Follows s r t
      → IfOk (Follows t) (next t)
      → IfOk (Follows s) (after_fault r next t)
  unfolding after_fault
  after_fault-Follows s vm_fault_oom t next p q = p
  after_fault-Follows s vm_fault_sigbus t next p q = p
  after_fault-Follows s vm_fault_nopage t next p q = after (next t) q
    where
      after : (r : Run MmapResult) → IfOk (Follows t) r → IfOk (Follows s) r
      after (ok a u) q = Takes-trans p q
      after oops q = tt
      after out_of_fuel q = tt

  prepage-Follows :
      (vm_end fuel addr : ℕ) (s : State) → IfOk (Follows s) (prepage k fuel addr vm_end s)
  unfolding prepage
  prepage-Follows vm_end zero addr s = tt
  prepage-Follows vm_end (suc fuel) addr s = elim (Bool-cases (ltb addr vm_end)) [
    | inr e ↦ rw e no_more
    | inl e ↦ rw e (
        IfOk-bind (Faults s) (Follows s) (do_fault k addr s) _ (do_fault-Faults addr s)
          λ r t p. after_fault-Follows s r t _ (faulting-Takes p) (prepage-Follows vm_end fuel _ t))
  ]

  prepage_all-Follows : (vma : Vma) (s : State) → IfOk (Follows s) (prepage_all k vma s)
  unfolding prepage_all
  prepage_all-Follows vma s = elim (Bool-cases (s.demand_paging == 0)) [
    | inl e ↦ rw e (prepage-Follows vma.vm_end _ vma.vm_start s)
    | inr e ↦ rw e no_more
  ]

  paging_mmap-Performs :
      (vma : Vma) (s : State)
      → IsFresh k s
      → IfOk (λ _ t. Performs (view s) granting (view t)) (paging_mmap k vma s)
  paging_mmap-Performs vma s fresh = elim (Option-cases (k.kmalloc_reply s.calls)) [
    | inl e ↦ rw (paging_mmap-refused k vma s e) refuse
    | inr (a, e) ↦ rw (paging_mmap-tracked k a vma s e) (
        IfOk-bind (Follows (started a s)) (λ _ t. Performs (view s) granting (view t))
          (prepage_all k (tracked k a vma) (started a s)) _
          (prepage_all-Follows (tracked k a vma) (started a s)) λ r t p. create a (fresh a e) p)
  ]

IfOk-ok :
    {A : Type 0} (P : A → State → Type 0) {r : Run A} {x : A} {t : State}
    → IfOk P r
    → r ≡ ok x t
    → P x t
IfOk-ok P h e = subst (IfOk P) e h

update_twice :
    (f : ℕ → Option ℕ) (i : ℕ) (a b : Option ℕ) → update (update f i a) i b ≡ update f i b
update_twice f i a b = fun_ext (λ j. ground arith)

module _ (k : Kernel) (some_bytes : 0 < k.page_size) where
  freed-Performs :
      (a : ℕ) (s t : State)
      → s.pa_states a ≡ some 1
      → AllFreed a (set_count a 0 s) t
      → Performs (view s) (closing (some a)) (view t)
  freed-Performs a s t one f =
      let same : view t ≡ record { owed = Quot.mk []; users = update s.pa_states a none } =
        rw (f.2, f.3, update_twice s.pa_states a (some 0) none) refl in
      subst (Performs (view s) (closing (some a))) (sym same) (give_back a one)

  closed-Performs :
      (y : System) (i : Inv y) (v : Vma) (xs ys : List Vma) (e : y.vmas ≡ xs ++ v ∷ ys) {t : State}
      → paging_vma_close v y.mem ≡ ok tt t
      → Performs (view y.mem) (closing v.vm_private_data) (view t)
  unfolding shared_state left
  closed-Performs y i v xs ys e {t} ran =
      let h = live y i v xs ys e in
      subst (λ o. Performs (view y.mem) (closing o) (view t)) (sym h.private)
        (elim (dec_lt 0 (left y i v xs ys e)) [
          | yes more ↦
              rw (ok-injective ran (close_runs y i v xs ys e more))
                (leave h.at (left y i v xs ys e) h.struct more)
          | no last ↦
              freed-Performs h.at y.mem t (h.struct ∙ ap (λ n. some (suc n)) (none_left last))
                (Ends-ok _ (last_close y i v xs ys e (none_left last)) ran).1
        ])
    where
      none_left : {n : ℕ} → ¬ (0 < n) → n ≡ 0
      none_left h = omega arith

-- What a step of the module in use does, to which struct.
abbrev pub operation : {k : Kernel} {y z : System} → Step k y z → Operation
operation (granted vma v fresh fits few e) = granting
operation (denied vma v r fresh fits refused e) = granting
operation (faulted_in v r address xs ys e ran) = faulting
operation (opened v xs ys e few ran) = opening v.vm_private_data
operation (closed v xs ys e ran) = closing v.vm_private_data
operation (set_param m) = tuning

module _ (k : Kernel) (some_bytes : 0 < k.page_size) where
  -- From a reachable state, for pages of positive size, each step of the module in use does what the
  -- contract says of its operation, to the pages that the module holds, in no order, and to the counts
  -- of its structs.
  pub Step-Performs :
      {n : ℕ} {y z : System}
      → Reach k n y
      → (st : Step k y z) → Performs (view y.mem) (operation st) (view z.mem)
  unfolding paging_vma_fault opened_state left
  Step-Performs {y} r (granted vma v fresh fits few e) =
      IfOk-ok (λ _ t. Performs (view y.mem) granting (view t))
        (paging_mmap-Performs k vma y.mem fresh) e
  Step-Performs {y} r (denied vma v res fresh fits refused e) =
      IfOk-ok (λ _ t. Performs (view y.mem) granting (view t))
        (paging_mmap-Performs k vma y.mem fresh) e
  Step-Performs {y} r (faulted_in v res address xs ys e ran) =
      IfOk-ok (Faults y.mem) (do_fault-Faults k address y.mem) ran
  Step-Performs {y} {z} r (opened v xs ys e few ran) =
      let i = Reach-Inv k some_bytes r in
      let h = live y i v xs ys e in
      subst (λ o. Performs (view y.mem) (opening o) (view z.mem)) (sym h.private)
        (rw (ok-injective ran (open_runs y i v xs ys e few))
          (share h.at (left y i v xs ys e) h.struct))
  Step-Performs {y} r (closed v xs ys e ran) =
      closed-Performs k some_bytes y (Reach-Inv k some_bytes r) v xs ys e ran
  Step-Performs r (set_param m) = tune
