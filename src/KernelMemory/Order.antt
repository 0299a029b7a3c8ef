-- ===== src/KernelMemory/Order.antt =====
-- `my_get_order` of studios/studio12/kernel_memory.c: the power of two that a number of pages
-- needs.
use cse422_archive.Base.{
  ℕ, zero, suc, ◌+◌, ◌-◌, ◌*◌, ◌/◌, ◌^◌, ◌≤◌, ◌<◌, ◌≡◌, refl, sym, ap, ◌∙◌, ◌≢◌, inl, inr, Bool,
  true, false, ◌&&◌, Option, none, some, arith, dec_lt, ltb, ◌==◌, if◌then◌else◌, Bool-cases,
}
use Prim.Native.Nat.{bit_and, max}
use mathlib.Core.Path.{subst}
use mathlib.Core.Bool.{false≢true}
use native.Mathlib.Nat.{pow-suc, zero-add}

-- The `while` loop. `none` means that the fuel ran out; 33 rounds are enough for an `unsigned int`.
unfoldable pub shift_loop : ℕ → ℕ → ℕ → Option ℕ
shift_loop zero value shifts = none
shift_loop (suc fuel) value shifts =
    let rest = shift_loop fuel (value / 2) (shifts + 1) in if ltb 0 value then rest else some shifts

unfoldable pub my_get_order : ℕ → Option ℕ
my_get_order value =
    if value == 0
    then some 0
    else shift_loop 33 (if bit_and value (value - 1) == 0 then value - 1 else value) 0

shift_loop-suc :
    (fuel v shifts : ℕ)
    → shift_loop (suc fuel) (suc v) shifts ≡ shift_loop fuel (suc v / 2) (shifts + 1)
unfolding shift_loop
shift_loop-suc fuel v shifts = rw (pos, shift_loop)
  where
    pos : ltb 0 (suc v) ≡ true
    pos = ground arith

add_shift : (shifts d : ℕ) → shifts + 1 + d ≡ shifts + suc d
add_shift shifts d = omega arith

-- The number of shifts is the number of binary digits.
record Digits (fuel value shifts : ℕ) (r : Option ℕ) : Type 0 where
  digits : ℕ
  few : digits ≤ fuel
  result : r ≡ some (shifts + digits)
  above : value < 2 ^ digits
  below : 2 ^ digits ≤ max 1 (2 * value)

shift_loop-Digits :
    (fuel value shifts : ℕ)
    → value < 2 ^ fuel
    → Digits fuel value shifts (shift_loop (suc fuel) value shifts)
unfolding shift_loop
shift_loop-Digits fuel zero shifts h = record {
  digits = 0;
  few = omega arith;
  result = ground arith;
  above = omega arith;
  below = omega arith;
}
shift_loop-Digits zero (suc v) shifts h = absurd (omega arith)
shift_loop-Digits (suc fuel) (suc v) shifts h =
    let rest = shift_loop-Digits fuel (suc v / 2) (shifts + 1) (omega (arith, pow-suc 2 fuel)) in
    record {
      digits = suc rest.digits;
      few = omega (arith, rest.few);
      result =
          shift_loop-suc (suc fuel) v shifts ∙ rest.result ∙ ap some (add_shift shifts rest.digits);
      above = omega (arith, rest.above, pow-suc 2 rest.digits);
      below = omega (arith, rest.below, pow-suc 2 rest.digits);
    }

-- A power of two below 2^33 has no digit in common with the number before it.
powers_below : ℕ → Bool
powers_below zero = true
powers_below (suc k) = (bit_and (2 ^ k) (2 ^ k - 1) == 0) && powers_below k

powers_table : powers_below 33 ≡ true
unfolding powers_below
powers_table = refl

powers_sound : (n k : ℕ) → powers_below n ≡ true → k < n → bit_and (2 ^ k) (2 ^ k - 1) ≡ 0
unfolding powers_below
powers_sound zero k h lt = absurd (omega arith)
powers_sound (suc n) k h lt = elim (dec_lt k n) [
  | yes below ↦ powers_sound n k (ground arith) below
  | no last ↦ subst (λ x. bit_and (2 ^ x) (2 ^ x - 1) ≡ 0) (top last) (ground arith)
]
  where
    top : ¬ (k < n) → n ≡ k
    top h = omega arith

-- The order is the smallest power of two that covers the value.
abbrev pub Covers : ℕ → ℕ → Type 0
Covers value order = (value ≤ 2 ^ order) × (2 ^ order < 2 * value)

not_tight : (d value : ℕ) → d ≤ 32 → (bit_and value (value - 1) == 0) ≡ false → 2 ^ d ≢ 2 * value
not_tight zero value few odd h = omega arith
not_tight (suc d) value few odd h =
    false≢true
      (sym odd ∙ rw at_power (ground (arith, powers_sound 33 d powers_table (omega arith))))
  where
    at_power : value ≡ 2 ^ d
    at_power = omega (arith, pow-suc 2 d)

-- For each positive `unsigned int` the loop ends within its 33 rounds, and `my_get_order` returns
-- the least order whose power of two is at least the value.
pub my_get_order-Covers :
    (value : ℕ)
    → 0 < value
    → value < 2 ^ 32
    → (order : ℕ) × (my_get_order value ≡ some order) × Covers value order
unfolding my_get_order
my_get_order-Covers value pos word = elim (Bool-cases (bit_and value (value - 1) == 0)) [
  | inl e ↦
      let d = shift_loop-Digits 32 (value - 1) 0 (omega arith) in
      (
        d.digits,
        rw (some_pos, e) (d.result ∙ ap some (zero-add d.digits)),
        (omega (arith, d.above), omega (arith, d.below)),
      )
  | inr e ↦
      let d = shift_loop-Digits 32 value 0 word in
      (
        d.digits,
        rw (some_pos, e) (d.result ∙ ap some (zero-add d.digits)),
        (omega (arith, d.above), omega (arith, d.below, not_tight d.digits value d.few e)),
      )
]
  where
    some_pos : (value == 0) ≡ false
    some_pos = ground arith
