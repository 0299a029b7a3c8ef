-- ===== src/Sysfs/Tests.antt =====
-- The attributes of studios/studio5 over a kernel with four processes.
use cse422_archive.Base.{
  ℕ, zero, suc, ◌-◌, ◌<◌, ◌≡◌, refl, ◌≢◌, inl, none, some, [], ◌∷◌, arith, ltb, ◌==◌, if◌then◌else◌,
  pos, negsuc,
}
use cse422_archive.Sysfs.Program.{
  walk, ancestors, pidme_store, parse_error, parsed, accepted, foo_attribute, baz_attribute, Kernel,
  Variables,
}
use cse422_archive.Sysfs.Walk.{ancestor, pids, pidme_store-pids}

-- A text is a number; 99 is no number. Task 3 is the child of 2, which is the child of 1.
abbrev small : Kernel ℕ
small = record {
  kstrtoint = λ b. if b == 99 then parse_error 22 else parsed (pos b);
  print_int = λ n. elim n [ pos m ↦ m | negsuc m ↦ 99 ];
  find_task = λ n. elim n [ pos m ↦ (if ltb m 4 then some m else none) | negsuc m ↦ none ];
  task_at = λ a. record { pid = a; real_parent = a - 1 };
}

family : pidme_store small 3 1 (pos 0) ≡ (accepted 1, pos 3, 3 ∷ (2 ∷ (1 ∷ [])))
unfolding pidme_store ancestors walk
family = refl

no_process : pidme_store small 50 2 (pos 0) ≡ (accepted 2, pos 50, [])
unfolding pidme_store ancestors walk
no_process = refl

both_high : (j : ℕ) → j < 2 → 1 < (ancestor small j (small.task_at 3)).pid
both_high zero h = omega arith
both_high (suc zero) h = omega arith
both_high (suc (suc j)) h = absurd (omega arith)

pidme_store-pids_example :
    pidme_store small 3 1 (pos 0) ≡ (accepted 1, pos 3, pids small 3 (small.task_at 3))
pidme_store-pids_example =
    pidme_store-pids small 3 1 2 3 (pos 0) (pos 3) refl refl (omega arith) both_high
      (inl (omega arith))

abbrev ones : Variables
ones = record { foo = pos 1; baz = pos 1; bar = pos 1 }

baz-ne-foo : baz_attribute ≢ foo_attribute
baz-ne-foo e = cc
