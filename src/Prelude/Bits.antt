-- ===== src/Prelude/Bits.antt =====
-- Python's `|` of a field that is shifted above the bits of another: it is their sum.
use Prim.Native.Nat.{
  ℕ, zero, suc, ◌+◌, ◌-◌, ◌*◌, ◌/◌, ◌%◌, ◌^◌, ◌≤◌, ◌<◌, max, bit_or, digits, bit_or-bitwise,
}
use mathlib.Core.Path.{◌≡◌, refl, ap, ◌∙◌, sym}
use native.Mathlib.Omega.{arith}
use native.Mathlib.Nat.{pow-suc}

-- The digits of `x | y`, with at most `fuel` of them.
abbrev or_digits : (fuel x y : ℕ) → ℕ
or_digits fuel x y = digits (λ y. y) max fuel x y

or_digits-zero : (fuel y : ℕ) → or_digits fuel 0 y ≡ y
or_digits-zero zero y = refl
or_digits-zero (suc fuel) y = refl

-- `x` digits are enough.
or_digits_more : (fuel more x y : ℕ) → x ≤ fuel → or_digits (fuel + more) x y ≡ or_digits fuel x y
or_digits_more fuel more zero y enough =
    or_digits-zero (fuel + more) y ∙ sym (or_digits-zero fuel y)
or_digits_more zero more (suc x) y enough = absurd (omega arith)
or_digits_more (suc fuel) more (suc x) y enough =
    let fuels : suc fuel + more ≡ suc (fuel + more) = omega arith in
    let halves = or_digits_more fuel more (suc x / 2) (y / 2) (omega arith) in
    ap (λ (n : ℕ). or_digits n (suc x) y) fuels
    ∙ ap (λ (d : ℕ). d * 2 + max (suc x % 2) (y % 2)) halves

pub zero-bit_or : (y : ℕ) → bit_or 0 y ≡ y
zero-bit_or y = bit_or-bitwise 0 y

half_digits : (x y : ℕ) → or_digits x (suc x / 2) y ≡ bit_or (suc x / 2) y
half_digits x y =
    ap (λ (fuel : ℕ). or_digits fuel (suc x / 2) y) (omega arith)
    ∙ or_digits_more (suc x / 2) (x - suc x / 2) (suc x / 2) y (omega arith)
    ∙ sym (bit_or-bitwise (suc x / 2) y)

-- the lowest digit apart
bit_or_digit : (x y : ℕ) → max (x % 2) (y % 2) + 2 * bit_or (x / 2) (y / 2) ≡ bit_or x y
bit_or_digit zero y = omega (arith, zero-bit_or y, zero-bit_or (y / 2))
bit_or_digit (suc x) y = omega (arith, bit_or-bitwise (suc x) y, half_digits x (y / 2))

bit_or-zero_within : (bound x : ℕ) → x ≤ bound → bit_or x 0 ≡ x
bit_or-zero_within bound zero h = refl
bit_or-zero_within zero (suc x) h = absurd (omega arith)
bit_or-zero_within (suc bound) (suc x) h =
    omega (arith, bit_or_digit (suc x) 0, bit_or-zero_within bound (suc x / 2) (omega arith))

pub bit_or-zero : (x : ℕ) → bit_or x 0 ≡ x
bit_or-zero x = bit_or-zero_within x x (omega arith)

double_shift : (high width : ℕ) → 2 * (high * 2 ^ width) ≡ high * 2 ^ suc width
double_shift high width = omega (arith, ap (λ (p : ℕ). high * p) (pow-suc 2 width))

-- a field that is shifted above `width` low bits, joined with those bits
pub bit_or_fields :
    (width high low : ℕ) → low < 2 ^ width → bit_or (high * 2 ^ width) low ≡ high * 2 ^ width + low
bit_or_fields zero high low h =
    omega (arith, bit_or-zero (high * 1), ap (bit_or (high * 1)) low_is_zero)
  where
    low_is_zero : low ≡ 0
    low_is_zero = omega arith
bit_or_fields (suc width) high low h =
    let shifted = double_shift high width in
    let above = bit_or_fields width high (low / 2) (omega arith) in
    ground (arith, bit_or_digit (high * 2 ^ suc width) low, shifted, above)

-- the same with the operands exchanged
pub bit_or_fields_comm :
    (width high low : ℕ) → low < 2 ^ width → bit_or low (high * 2 ^ width) ≡ high * 2 ^ width + low
bit_or_fields_comm zero high low h = ground (arith, zero-bit_or high)
bit_or_fields_comm (suc width) high low h =
    let shifted = double_shift high width in
    let above = bit_or_fields_comm width high (low / 2) (omega arith) in
    ground (arith, bit_or_digit low (high * 2 ^ suc width), shifted, above)
