-- ===== src/Paging/Invariant.antt =====
-- The reference counts of labs/lab2/mod/paging.c, in every order of its operations.
use cse422_archive.Paging.Kernel.{atomic_inc, Run, ok, Kernel, State}
use cse422_archive.Paging.Close.{
  AllFreed, set_count, paging_vma_open-live, set_count-Balanced, paging_vma_close-last,
  paging_vma_close-shared,
}
use cse422_archive.Base.{
  ℕ, suc, ◌+◌, ◌-◌, ◌^◌, ◌≤◌, ◌<◌, ◌≡◌, ap, ◌∙◌, none, some, List, [], ◌∷◌, ◌++◌, arith, length,
  length-append, All, update, All-middle, All-without,
}
use cse422_archive.Paging.Driver.{paging_vma_open, paging_vma_close, Vma}
use cse422_archive.Paging.Ledger.{Ends, Balanced}
use cse422_archive.Paging.System.{points, users, System}
use mathlib.Core.Path.{subst}

pub record Inv (y : System) : Type 0 where
  pub balanced : Balanced y.mem
  pub few : length y.vmas < 2 ^ 32
  pub owned : All (λ v. (a : ℕ) × (v.vm_private_data ≡ some a)) y.vmas
  pub shared : (a : ℕ) → 0 < users a y.vmas → y.mem.pa_states a ≡ some (users a y.vmas)

users-append : (a : ℕ) (xs ys : List Vma) → users a (xs ++ ys) ≡ users a xs + users a ys
unfolding users
users-append a [] ys = omega arith
users-append a (x ∷ xs) ys = omega (arith, users-append a xs ys)

users-le-length : (a : ℕ) (xs : List Vma) → users a xs ≤ length xs
unfolding users
users-le-length a [] = omega arith
users-le-length a (x ∷ xs) = ground (arith, users-le-length a xs)

users-middle :
    (a : ℕ) (v : Vma) (xs ys : List Vma)
    → users a (xs ++ v ∷ ys) ≡ points a v.vm_private_data + users a (xs ++ ys)
unfolding users
users-middle a v xs ys = omega (arith, users-append a xs (v ∷ ys), users-append a xs ys)

module _ (y : System) (i : Inv y) (v : Vma) (xs ys : List Vma) (e : y.vmas ≡ xs ++ v ∷ ys) where
  -- An open mapping has a live struct, counted by its users.
  pub record Live : Type 0 where
    pub at : ℕ
    pub private : v.vm_private_data ≡ some at
    pub total : users at y.vmas ≡ suc (users at (xs ++ ys))
    pub struct : y.mem.pa_states at ≡ some (suc (users at (xs ++ ys)))
    pub small : suc (users at (xs ++ ys)) < 2 ^ 32

  pub live : Live
  live = record {
    at = a;
    private = p;
    total = count;
    struct = rw count at (i.shared a (omega (arith, count)));
    small = omega (arith, count, users-le-length a y.vmas, i.few);
  }
    where
      found : (a : ℕ) × (v.vm_private_data ≡ some a)
      found =
          All-middle (λ v. (a : ℕ) × (v.vm_private_data ≡ some a)) xs v ys (subst (All _) e i.owned)

      a : ℕ
      a = found.0

      p : v.vm_private_data ≡ some a
      p = found.1

      one : points a v.vm_private_data ≡ 1
      one = rw p (ground arith)

      count : users a y.vmas ≡ suc (users a (xs ++ ys))
      count = rw e (omega (arith, users-middle a v xs ys, one))

pub ok-injective :
    {A : Type 0} {r : Run A} {x y : A} {t u : State} → r ≡ ok x t → r ≡ ok y u → t ≡ u
ok-injective p q = cc

module _ (y : System) (i : Inv y) (v : Vma) (xs ys : List Vma) (e : y.vmas ≡ xs ++ v ∷ ys) where
  open (live y i v xs ys e) use {at, private, total, struct, small}

  unfoldable pub left : ℕ
  left = users at (xs ++ ys)

  unfoldable pub opened_state : System
  opened_state = record { mem = set_count at (suc (suc left)) y.mem; vmas = v ∷ y.vmas }

  pub open_runs : suc (length y.vmas) < 2 ^ 32 → paging_vma_open v y.mem ≡ ok tt opened_state.mem
  unfolding opened_state left
  open_runs few = rw (← bumped) (paging_vma_open-live v at (suc left) y.mem private struct)
    where
      bumped : atomic_inc (suc left) ≡ suc (suc left)
      bumped = omega (arith, total, users-le-length at y.vmas)

  pub open-Inv : suc (length y.vmas) < 2 ^ 32 → Inv opened_state
  unfolding users opened_state left
  open-Inv few = record {
    balanced = set_count-Balanced at _ y.mem i.balanced;
    few = few;
    owned = ((at, private), i.owned);
    shared = λ x h. ground (arith, private, total, i.shared x);
  }

  -- After a close that was not the last of its struct.
  unfoldable pub shared_state : System
  shared_state = record { mem = set_count at left y.mem; vmas = xs ++ ys }

  pub close_runs : 0 < left → paging_vma_close v y.mem ≡ ok tt shared_state.mem
  unfolding shared_state left
  close_runs more =
      paging_vma_close-shared v at y.mem i.balanced private (suc left) struct (omega arith) small
      ∙ ap (λ n. ok tt (set_count at n y.mem)) one_less
    where
      one_less : suc left - 1 ≡ left
      one_less = omega arith

  pub last_close :
      left ≡ 0
      → Ends (λ _ t. Balanced t × AllFreed at (set_count at 0 y.mem) t) (paging_vma_close v y.mem)
  unfolding left
  last_close e =
      paging_vma_close-last v at y.mem i.balanced private (struct ∙ ap (λ n. some (suc n)) e)

  close-few : length (xs ++ ys) < 2 ^ 32
  close-few = omega (arith, i.few, ap length e, length-append xs (v ∷ ys), length-append xs ys)

  close-owned : All (λ v. (a : ℕ) × (v.vm_private_data ≡ some a)) (xs ++ ys)
  close-owned =
      All-without (λ v. (a : ℕ) × (v.vm_private_data ≡ some a)) xs v ys (subst (All _) e i.owned)

  close-users : (x : ℕ) → users x y.vmas ≡ points x (some at) + users x (xs ++ ys)
  close-users x = rw (e, users-middle x v xs ys, private)

  pub close-Inv : 0 < left → Inv shared_state
  unfolding shared_state left
  close-Inv more = record {
    balanced = set_count-Balanced at _ y.mem i.balanced;
    few = close-few;
    owned = close-owned;
    shared = λ x h. ground (arith, close-users x, i.shared x);
  }

  pub last-Inv :
      {t : State}
      → left ≡ 0
      → Balanced t × AllFreed at (set_count at 0 y.mem) t
      → Inv (record { mem = t; vmas = xs ++ ys })
  unfolding left
  last-Inv none_left (b, freed) = record {
    balanced = b;
    few = close-few;
    owned = close-owned;
    shared = λ x h. rw (freed.3) (ground (arith, close-users x, i.shared x));
  }

pub granted-Inv :
    (k : Kernel) (y : System) (v : Vma) (a : ℕ) (t : State)
    → Inv y
    → suc (length y.vmas) < 2 ^ 32
    → y.mem.pa_states a ≡ none
    → v.vm_private_data ≡ some a
    → t.pa_states ≡ update y.mem.pa_states a (some 1)
    → Balanced t
    → Inv (record { mem = t; vmas = v ∷ y.vmas })
unfolding users
granted-Inv k y v a t i few fresh private structs b = record {
  balanced = b;
  few = few;
  owned = ((a, private), i.owned);
  shared = λ x h. rw structs (ground (arith, private, fresh, i.shared x));
}

pub denied-Inv :
    (y : System) (a : ℕ) (t : State)
    → Inv y
    → y.mem.pa_states a ≡ none
    → t.pa_states ≡ update y.mem.pa_states a (some 1)
    → Balanced t
    → Inv (record { mem = t; vmas = y.vmas })
denied-Inv y a t i fresh structs b = record {
  balanced = b;
  few = i.few;
  owned = i.owned;
  shared = λ x h. rw structs (ground (arith, fresh, i.shared x));
}

pub same-Inv :
    (y : System) (t : State)
    → Inv y
    → t.pa_states ≡ y.mem.pa_states
    → Balanced t
    → Inv (record { mem = t; vmas = y.vmas })
same-Inv y t i structs b = record {
  balanced = b;
  few = i.few;
  owned = i.owned;
  shared = λ x h. rw structs (i.shared x h);
}
