-- ===== src/Protocol/BitString.antt =====
-- A message as one number, most significant bit first, and the fields of bits within it.
use mathlib.Core.List.{reverse, reverse-append}
use fuzzing_framework.Prelude.{
  ℕ, zero, suc, ◌+◌, ◌-◌, ◌*◌, ◌/◌, ◌%◌, ◌^◌, ◌<◌, ◌≤◌, ◌≡◌, refl, sym, ap, ap₂, ◌∙◌, subst, List,
  [], ◌∷◌, ◌++◌, append_assoc, arith, length, length-append, All, All-append, All-take, All-drop,
  take, drop, take-append-drop, length-take, length-drop,
}
use fuzzing_framework.Prelude.Bits.{bit_or_fields, zero-bit_or}
use Prim.Native.Nat.{bit_or}
use fuzzing_framework.Prelude.Powers.{two-pow-add, high_part, low_part, join_lt, join_assoc}
use fuzzing_framework.Protocol.Integers.{from_big, to_little, to_big}

-- Bytes are numbers below 256.
abbrev pub AreBytes : List ℕ → Type 0
AreBytes bs = All (λ b. b < 256) bs

abbrev pub bit_length : List ℕ → ℕ
bit_length bs = length bs * 8

abbrev pub to_number : List ℕ → ℕ
to_number bs = from_big 0 bs

from_big-cons : (v b : ℕ) (bs : List ℕ) → b < 256 → from_big v (b ∷ bs) ≡ from_big (v * 256 + b) bs
unfolding from_big
from_big-cons v b bs h = ap (λ (n : ℕ). from_big n bs) (bit_or_fields 8 v b h)

-- the bits of one byte more
bit_length-cons : (b : ℕ) (bs : List ℕ) → 8 + bit_length bs ≡ bit_length (b ∷ bs)
bit_length-cons b bs = omega arith

-- A message behind a number: the number moves up by the bits of the message.
pub from_big_lem :
    (v : ℕ) (bs : List ℕ)
    → AreBytes bs
    → (from_big v bs ≡ v * 2 ^ bit_length bs + to_number bs) × (to_number bs < 2 ^ bit_length bs)
from_big_lem v [] h = (unfold from_big in omega arith, unfold from_big in omega arith)
from_big_lem v (b ∷ bs) h =
    let tail : to_number (b ∷ bs) ≡ b * 2 ^ bit_length bs + to_number bs =
      from_big-cons 0 b bs h.0
      ∙ ap (λ (n : ℕ). from_big n bs) (omega arith)
      ∙ (from_big_lem b bs h.1).0 in
    let longer : 8 + bit_length bs ≡ bit_length (b ∷ bs) = bit_length-cons b bs in
    (
      from_big-cons v b bs h.0
          ∙ (from_big_lem (v * 256 + b) bs h.1).0
          ∙ join_assoc 8 (bit_length bs) v b (to_number bs)
          ∙ ap₂ (λ (m n : ℕ). v * 2 ^ m + n) longer (sym tail),
      subst (λ n. n < 2 ^ bit_length (b ∷ bs)) (sym tail)
          (subst (λ m. b * 2 ^ bit_length bs + to_number bs < 2 ^ m) longer
            (join_lt 8 (bit_length bs) b (to_number bs) h.0 (from_big_lem 0 bs h.1).1)),
    )

from_big-append : (v : ℕ) (xs ys : List ℕ) → from_big v (xs ++ ys) ≡ from_big (from_big v xs) ys
unfolding from_big
from_big-append v [] ys = refl
from_big-append v (x ∷ xs) ys = from_big-append (bit_or (v * 2 ^ 8) x) xs ys

pub to_number-append :
    (xs ys : List ℕ)
    → AreBytes ys
    → to_number (xs ++ ys) ≡ to_number xs * 2 ^ bit_length ys + to_number ys
to_number-append xs ys h = from_big-append 0 xs ys ∙ (from_big_lem (to_number xs) ys h).0

pub to_number-lt : (bs : List ℕ) → AreBytes bs → to_number bs < 2 ^ bit_length bs
to_number-lt bs h = (from_big_lem 0 bs h).1

pub bit_length-append : (xs ys : List ℕ) → bit_length (xs ++ ys) ≡ bit_length xs + bit_length ys
bit_length-append xs ys = omega (arith, length-append {0} xs ys)

-- The bits of a message from bit `offset` on, `n` of them.
abbrev pub bits_at : List ℕ → ℕ → ℕ → ℕ
bits_at bs offset n = to_number bs / 2 ^ (bit_length bs - offset - n) % 2 ^ n

middle_number :
    (xs ys zs : List ℕ)
    → AreBytes ys
    → AreBytes zs
    → to_number (xs ++ (ys ++ zs)) / 2 ^ bit_length zs % 2 ^ bit_length ys ≡ to_number ys
middle_number xs ys zs h k =
    rw (← append_assoc xs ys zs, to_number-append (xs ++ ys) zs k, to_number-append xs ys h)
      (rw
        (high_part (bit_length zs) (to_number xs * 2 ^ bit_length ys + to_number ys) (to_number zs)
          (to_number-lt zs k))
        (low_part (bit_length ys) (to_number xs) (to_number ys) (to_number-lt ys h)))

-- A whole number of bytes within a message.
pub to_number-slice :
    (bs : List ℕ) (offset k : ℕ)
    → AreBytes bs
    → offset + k ≤ length bs
    → to_number (take k (drop offset bs)) ≡ bits_at bs (offset * 8) (k * 8)
to_number-slice bs offset k h fits =
    let xs = take offset bs in
    let ys = take k (drop offset bs) in
    let zs = drop k (drop offset bs) in
    let rest : AreBytes (drop offset bs) = All-drop _ offset bs h in
    let whole : xs ++ (ys ++ zs) ≡ bs =
      ap (λ l. xs ++ l) (take-append-drop k (drop offset bs)) ∙ take-append-drop offset bs in
    let inner : bit_length ys ≡ k * 8 =
      omega (arith, length-take k (drop offset bs), length-drop offset bs) in
    let behind : bit_length zs ≡ bit_length bs - offset * 8 - k * 8 =
      omega (arith, length-drop k (drop offset bs), length-drop offset bs) in
    sym (middle_number xs ys zs (All-take _ k _ rest) (All-drop _ k _ rest))
    ∙ ap (λ l. to_number l / 2 ^ bit_length zs % 2 ^ bit_length ys) whole
    ∙ ap₂ (λ (m n : ℕ). to_number bs / 2 ^ m % 2 ^ n) behind inner

to_big-suc : (k n : ℕ) → to_big (suc k) n ≡ to_big k (n / 256) ++ n % 256 ∷ []
unfolding to_big
to_big-suc k n = reverse-append (n % 256 ∷ []) (to_little k (n / 256))

pub length-to_little : (k n : ℕ) → length (to_little k n) ≡ k
unfolding to_little
length-to_little zero n = refl
length-to_little (suc k) n = ap suc (length-to_little k (n / 256))

pub length-to_big : (k n : ℕ) → length (to_big k n) ≡ k
length-to_big zero n = unfold to_big in refl
length-to_big (suc k) n = rw (to_big-suc k n) (
    omega (arith, length-append {0} (to_big k (n / 256)) (n % 256 ∷ []), length-to_big k (n / 256)))

pub to_little-AreBytes : (k n : ℕ) → AreBytes (to_little k n)
unfolding to_little
to_little-AreBytes zero n = tt
to_little-AreBytes (suc k) n = (omega arith, to_little-AreBytes k (n / 256))

pub to_big-AreBytes : (k n : ℕ) → AreBytes (to_big k n)
to_big-AreBytes zero n = unfold to_big in tt
to_big-AreBytes (suc k) n = rw (to_big-suc k n) (
    All-append _ (to_big k (n / 256)) (n % 256 ∷ []) (to_big-AreBytes k (n / 256))
      (omega arith, tt))

shrink_lt : (k n : ℕ) → n < 2 ^ (suc k * 8) → n / 256 < 2 ^ (k * 8)
shrink_lt k n h =
    let wide : 2 ^ (suc k * 8) ≡ 256 * 2 ^ (k * 8) =
      ap (λ (m : ℕ). 2 ^ m) (omega arith) ∙ two-pow-add 8 (k * 8) in
    omega arith

pub one_byte : (b : ℕ) → to_number (b ∷ []) ≡ b
unfolding from_big
one_byte b = zero-bit_or b

-- Packing a number into bytes and reading them as a number.
pub to_big-number : (k n : ℕ) → n < 2 ^ (k * 8) → to_number (to_big k n) ≡ n
to_big-number zero n h = unfold to_big from_big in omega arith
to_big-number (suc k) n h = rw (to_big-suc k n) (
    to_number-append (to_big k (n / 256)) (n % 256 ∷ []) (omega arith, tt)
    ∙ omega (arith, to_big-number k (n / 256) (shrink_lt k n h), one_byte (n % 256)))

pub reverse-to_big : (k n : ℕ) → reverse (to_little k n) ≡ to_big k n
unfolding to_big
reverse-to_big k n = refl
