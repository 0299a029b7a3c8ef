-- ===== src/Machine.antt =====
-- Runs of C code over arrays with checked bounds, and postconditions of runs.
use cse422_archive.Base.{ℕ, ◌≤◌, ◌<◌, ◌≡◌, refl, arith, ltb, if◌then◌else◌, lt→ltb, update}

-- A run: its result, an access out of bounds, or no fuel left.
pub data Outcome {ℓ} (A : Type ℓ) : Type ℓ where
  done : A → Outcome A
  fault : Outcome A
  out_of_fuel : Outcome A

infixl 5 ◌>>=◌
abbrev pub ◌>>=◌ {ℓ κ} : {A : Type ℓ} {B : Type κ} → Outcome A → (A → Outcome B) → Outcome B
done a >>= f = f a
fault >>= f = fault
out_of_fuel >>= f = out_of_fuel

-- The memory behind a `double *`: reading or writing at `size` or above is a fault.
pub record Array (D : Type 0) : Type 0 where
  pub size : ℕ
  pub at : ℕ → D

module _ {D : Type 0} where
  unfoldable pub read : Array D → ℕ → Outcome D
  read A i = if ltb i A.size then done (A.at i) else fault

  unfoldable pub write : Array D → ℕ → D → Outcome (Array D)
  write A i v = if ltb i A.size then done (record A { at = update A.at i v }) else fault

  pub read-ok : (A : Array D) (i : ℕ) → i < A.size → read A i ≡ done (A.at i)
  unfolding read
  read-ok A i h = rw (lt→ltb i A.size h)

  pub write-ok :
      (A : Array D) (i : ℕ) (v : D)
      → i < A.size
      → write A i v ≡ done (record A { at = update A.at i v })
  unfolding write
  write-ok A i v h = rw (lt→ltb i A.size h)

  pub read-fault : (A : Array D) (i : ℕ) → A.size ≤ i → read A i ≡ fault
  unfolding read
  read-fault A i h = ground arith

-- What holds of a run that returns, with no fault and enough fuel.
abbrev pub Done {ℓ} : {X : Type ℓ} → (X → Type 0) → Outcome X → Type 0
Done P (done x) = P x
Done P fault = ⊥
Done P out_of_fuel = ⊥

pub Done-mono :
    {X : Type 0} {P Q : X → Type 0} (r : Outcome X) → Done P r → ((x : X) → P x → Q x) → Done Q r
Done-mono (done x) h f = f x h
Done-mono fault h f = h
Done-mono out_of_fuel h f = h

pub Done-bind :
    {X Y : Type 0} (P : X → Type 0) (Q : Y → Type 0) (r : Outcome X) (f : X → Outcome Y)
    → Done P r
    → ((x : X) → P x → Done Q (f x))
    → Done Q (r >>= f)
Done-bind P Q (done x) f h next = next x h
Done-bind P Q fault f h next = h
Done-bind P Q out_of_fuel f h next = h

pub Done-inverse :
    {X : Type 0} (P : X → Type 0) (r : Outcome X) → Done P r → (x : X) × (r ≡ done x) × P x
Done-inverse P (done x) h = (x, refl, h)
Done-inverse P fault h = absurd h
Done-inverse P out_of_fuel h = absurd h
