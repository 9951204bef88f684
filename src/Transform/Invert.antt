-- ===== src/Transform/Invert.antt =====
-- Inversion within a bit width, and the range of the results of a transform.
use native.Mathlib.Nat.{one-le-pow, mod-eq_of_lt, mod-lt, mod-mod}
use fuzzing_framework.Prelude.{ℕ, suc, ◌-◌, ◌%◌, ◌^◌, ◌<◌, ◌≡◌, ap, Option, some, arith}
use fuzzing_framework.Prelude.Int.{ℤ, pos, negsuc, low_bits}
use fuzzing_framework.Result.{ok}
use fuzzing_framework.Protocol.Model.{invert}
use fuzzing_framework.Transform.{operate, invert_within}

pub low_bits-lt : (w : ℕ) (v : ℤ) → low_bits w v < 2 ^ w
unfolding low_bits
low_bits-lt w (pos n) = mod-lt n (one-le-pow w 2 (omega arith))
low_bits-lt w (negsuc n) = omega (arith, one-le-pow w 2)

complement-lt : (m n : ℕ) → 0 < m → m - 1 - n % m < m
complement-lt m n h = omega arith

-- With a positive bit width, inverting a value twice leaves its low bits, whatever the value's sign
-- and the explicit masks.
pub invert-invert :
    (v : ℤ) (w : ℕ) (mask mask' : Option ℤ)
    → operate invert (invert_within v mask (some (pos (suc w)))) mask' (some (pos (suc w)))
      ≡ ok (pos (low_bits (suc w) v))
unfolding operate invert_within low_bits
invert-invert (pos n) w mask mask' =
    let m = 2 ^ suc w in
    let h : 0 < m = one-le-pow (suc w) 2 (omega arith) in
    ap (λ k. ok (pos k)) (rw (mod-eq_of_lt (complement-lt m n h)) (omega (arith, mod-lt n h)))
invert-invert (negsuc n) w mask mask' =
    ap (λ k. ok (pos (2 ^ suc w - 1 - k))) (mod-mod n (2 ^ suc w))
