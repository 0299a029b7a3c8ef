-- ===== src/Paging/Contract.antt =====
-- What the module of labs/lab2/mod/paging.c promises, with no lists and no calls: a bag of pages that it
-- owes the kernel, and the users of each of its structs.
use mathlib.Core.List.{Perm}
use mathlib.Core.List.Perm
use mathlib.Core.Quot
use mathlib.Core.Quot.{Quot, Quot-set}
use cse422_archive.Base.{ℕ, suc, ◌<◌, ◌≡◌, Option, none, some, List, [], ◌∷◌, update}

-- Pages, in no order.
abbrev pub Bag : Type 0
Bag = Quot (λ (xs ys : List ℕ). Perm xs ys)

unfoldable pub put : ℕ → Bag → Bag
put p = Quot.lift Quot-set (λ xs. Quot.mk (p ∷ xs)) (λ xs ys h. Quot.sound (Perm.cons p h))

pub put_comm : (p q : ℕ) (b : Bag) → put p (put q b) ≡ put q (put p b)
unfolding put
put_comm p q = Quot.ind (λ b. Quot-set _ _) (λ xs. Quot.sound (Perm.swap _ _ _))

pub record Loan : Type 0 where
  pub owed : Bag
  pub users : ℕ → Option ℕ

-- Pages are taken, one after another.
pub data Takes (l : Loan) : Loan → Type 0 where
  no_more : Takes l l
  one_more : {m : Loan} → Takes l m → (p : ℕ) → Takes l (record m { owed = put p m.owed })

-- What is done with the module. A mapping is opened and closed by the struct that it points to.
pub data Operation : Type 0 where
  granting : Operation
  faulting : Operation
  opening : Option ℕ → Operation
  closing : Option ℕ → Operation
  tuning : Operation

-- What each of these does: a new mapping creates a struct with one user and takes pages, unless there is no
-- struct to be had; a fault takes at most a page; an open adds a user to the struct; a close takes one
-- away, and with the last one every page is given back, whoever took it, and the struct.
pub data Performs (l : Loan) : Operation → Loan → Type 0 where
  refuse : Performs l granting l
  create :
      {m : Loan} (a : ℕ)
      → l.users a ≡ none
      → Takes (record l { users = update l.users a (some 1) }) m
      → Performs l granting m
  take_none : Performs l faulting l
  take_page : (p : ℕ) → Performs l faulting (record l { owed = put p l.owed })
  share :
      (a n : ℕ)
      → l.users a ≡ some (suc n)
      → Performs l (opening (some a)) (record l { users = update l.users a (some (suc (suc n))) })
  leave :
      (a n : ℕ)
      → l.users a ≡ some (suc n)
      → 0 < n
      → Performs l (closing (some a)) (record l { users = update l.users a (some n) })
  give_back :
      (a : ℕ)
      → l.users a ≡ some 1
      → Performs l (closing (some a)) (record { owed = Quot.mk []; users = update l.users a none })
  tune : Performs l tuning l

pub Takes-trans : {l m r : Loan} → Takes l m → Takes m r → Takes l r
Takes-trans p no_more = p
Takes-trans p (one_more q x) = one_more (Takes-trans p q) x

pub faulting-Takes : {l m : Loan} → Performs l faulting m → Takes l m
faulting-Takes take_none = no_more
faulting-Takes (take_page p) = one_more no_more p
