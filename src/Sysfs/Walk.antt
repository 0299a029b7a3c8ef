-- ===== src/Sysfs/Walk.antt =====
-- Which processes studios/studio5/family_reader.c prints.
use cse422_archive.Base.{
  ℕ, zero, suc, ◌≤◌, ◌<◌, ◌≡◌, refl, ap, ◌∙◌, ◌⊎◌, inl, inr, true, false, some, List, [], ◌∷◌,
  arith, ltb, ℤ,
}
use cse422_archive.Sysfs.Program.{walk, ancestors, pidme_store, parsed, accepted, Task, Kernel}

at_root : (p : ℕ) → p ≤ 1 → ltb 1 p ≡ false
at_root p h = ground arith

higher : (p : ℕ) → 1 < p → ltb 1 p ≡ true
higher p h = ground arith

module _ {B : Type 0} (k : Kernel B) where
  -- The n-th ancestor of a task, and the numbers of the first n of them, itself included.
  abbrev pub ancestor : ℕ → Task → Task
  ancestor zero t = t
  ancestor (suc n) t = ancestor n (k.task_at t.real_parent)

  abbrev pub pids : ℕ → Task → List ℕ
  pids zero t = []
  pids (suc n) t = t.pid ∷ pids n (k.task_at t.real_parent)

  walk-pids :
      (depth m : ℕ) (t : Task)
      → m ≤ depth
      → ((j : ℕ) → j < m → 1 < (ancestor j t).pid)
      → ((ancestor m t).pid ≤ 1) ⊎ (m ≡ depth)
      → walk k depth t ≡ pids (suc m) t
  unfolding walk
  walk-pids zero zero t h above stop = refl
  walk-pids zero (suc m) t h above stop = absurd (omega arith)
  walk-pids (suc depth) zero t h above (inl low) = rw (at_root t.pid low) refl
  walk-pids (suc depth) zero t h above (inr e) = absurd (omega arith)
  walk-pids (suc depth) (suc m) t h above stop = rw (higher t.pid (above 0 (omega arith))) (
      ap (λ l. t.pid ∷ l)
        (walk-pids depth m (k.task_at t.real_parent) (omega arith)
          (λ j l. above (suc j) (omega arith)) (shifted stop)))
    where
      shifted :
          ((ancestor (suc m) t).pid ≤ 1) ⊎ (suc m ≡ suc depth)
          → ((ancestor (suc m) t).pid ≤ 1) ⊎ (m ≡ depth)
      shifted (inl low) = inl low
      shifted (inr e) = inr (omega arith)

  -- For a number that is parsed and names a task, whose ancestors below the m-th have numbers above 1,
  -- where the m-th has not or m is 500, a write to the attribute is accepted, stores the number, and
  -- prints the numbers of the task and of its first m ancestors, in order.
  pub pidme_store-pids :
      (buf : B) (count m a : ℕ) (pidme n : ℤ)
      → k.kstrtoint buf ≡ parsed n
      → k.find_task n ≡ some a
      → m ≤ 500
      → ((j : ℕ) → j < m → 1 < (ancestor j (k.task_at a)).pid)
      → ((ancestor m (k.task_at a)).pid ≤ 1) ⊎ (m ≡ 500)
      → pidme_store k buf count pidme ≡ (accepted count, n, pids (suc m) (k.task_at a))
  unfolding pidme_store ancestors
  pidme_store-pids buf count m a pidme n p f h above stop =
      rw (p, pidme_store)
        (ap (λ l. (accepted count, n, l)) (found ∙ walk-pids 500 m (k.task_at a) h above stop))
    where
      found : ancestors k n ≡ walk k 500 (k.task_at a)
      found = rw (f, ancestors)
