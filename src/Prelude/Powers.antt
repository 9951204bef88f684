-- ===== src/Prelude/Powers.antt =====
-- Powers of two, and fields of bits as quotients and remainders.
use native.Mathlib.Nat.{
  pow-suc, one-le-pow, mul-add-mod_self_right, mul-add-div_right, div-add-mod', add-zero, add-suc,
  mul-one, mul_assoc, mul_comm, mod-eq_of_lt, div-eq_of_lt,
}
use Prim.Native.Nat.{ℕ, zero, suc, ◌+◌, ◌*◌, ◌/◌, ◌%◌, ◌^◌, ◌<◌}
use mathlib.Core.Path.{◌≡◌, sym, ap, ◌∙◌}
use native.Mathlib.Omega.{arith}

pub two-pow-pos : (n : ℕ) → 0 < 2 ^ n
two-pow-pos n = one-le-pow n 2 (omega arith)

pub two-pow-add : (a b : ℕ) → 2 ^ (a + b) ≡ 2 ^ a * 2 ^ b
two-pow-add a zero = rw (add-zero, mul-one)
two-pow-add a (suc b) =
    rw (add-suc, pow-suc, pow-suc, two-pow-add a b) (mul_assoc (2 ^ a) (2 ^ b) 2)

-- the high part of a number whose low `k` bits are `r`
pub high_part : (k q r : ℕ) → r < 2 ^ k → (q * 2 ^ k + r) / 2 ^ k ≡ q
high_part k q r h = rw (mul-add-div_right (two-pow-pos k) q r, div-eq_of_lt h) (add-zero q)

pub low_part : (k q r : ℕ) → r < 2 ^ k → (q * 2 ^ k + r) % 2 ^ k ≡ r
low_part k q r h = rw (mul-add-mod_self_right q (2 ^ k) r) (mod-eq_of_lt h)

-- two fields side by side are one field
pub join_lt : (a b q r : ℕ) → q < 2 ^ a → r < 2 ^ b → q * 2 ^ b + r < 2 ^ (a + b)
join_lt a b q r h k = rw (two-pow-add a b) (grind arith)

pub join_assoc : (a b w q r : ℕ) → (w * 2 ^ a + q) * 2 ^ b + r ≡ w * 2 ^ (a + b) + (q * 2 ^ b + r)
join_assoc a b w q r = rw (two-pow-add a b) (omega arith)

-- a part of a field: the bits above the lowest `s`, of which `n` are kept
pub part_of_field : (x s p n : ℕ) → x % 2 ^ (s + (p + n)) / 2 ^ s % 2 ^ n ≡ x / 2 ^ s % 2 ^ n
part_of_field x s p n =
    let y = x % 2 ^ (s + (p + n)) in
    let q = x / 2 ^ (s + (p + n)) in
    let whole : x ≡ q * (2 ^ p * 2 ^ n) * 2 ^ s + y =
      sym (div-add-mod' x (2 ^ (s + (p + n))))
      ∙ ap (λ (m : ℕ). q * m + y) (two-pow-add s (p + n) ∙ mul_comm (2 ^ s) (2 ^ (p + n)))
      ∙ ap (λ (m : ℕ). m + y)
          (sym (mul_assoc q (2 ^ (p + n)) (2 ^ s))
            ∙ ap (λ (m : ℕ). q * m * 2 ^ s) (two-pow-add p n)) in
    let shifted : x / 2 ^ s ≡ q * (2 ^ p * 2 ^ n) + y / 2 ^ s =
      ap (λ (m : ℕ). m / 2 ^ s) whole ∙ mul-add-div_right (two-pow-pos s) (q * (2 ^ p * 2 ^ n)) y in
    sym (
      ap (λ (m : ℕ). m % 2 ^ n)
        (shifted ∙ ap (λ (m : ℕ). m + y / 2 ^ s) (sym (mul_assoc q (2 ^ p) (2 ^ n))))
      ∙ mul-add-mod_self_right (q * 2 ^ p) (2 ^ n) (y / 2 ^ s))
