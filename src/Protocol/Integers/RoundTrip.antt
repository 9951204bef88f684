-- ===== src/Protocol/Integers/RoundTrip.antt =====
-- `struct.pack` and `struct.unpack` for the formats that the parser uses.
use native.Mathlib.Nat.{mod-eq_of_lt}
use fuzzing_framework.Prelude.{
  ℕ, ◌+◌, ◌-◌, ◌*◌, ◌%◌, ◌^◌, ◌<◌, ◌≡◌, ap, ◌∙◌, Bool, true, false, List, arith, length, ltb,
  if◌then◌else◌,
}
use fuzzing_framework.Prelude.Int.{ℤ, pos, negsuc, low_bits}
use fuzzing_framework.Prelude.Powers.{two-pow-add}
use fuzzing_framework.Result.{ok}
use fuzzing_framework.Protocol.Model.{Endian, big, little, other_endian, FieldType}
use fuzzing_framework.Protocol.BitString.{
  AreBytes, to_big-number, length-to_big, length-to_little, to_big-AreBytes, to_little-AreBytes,
  reverse-to_big,
}
use fuzzing_framework.Protocol.Integers.{
  IntegerInfo, get_integer_info, to_little, to_big, unpack, pack, in_range, is_big,
}
use fuzzing_framework.Transform.Invert.{low_bits-lt}

-- The number that the bytes of a format stand for.
abbrev as_integer : IntegerInfo → ℕ → ℤ
as_integer info n =
    if info.signed
    then (if ltb n (2 ^ (info.size * 8 - 1)) then pos n else negsuc (2 ^ (info.size * 8) - 1 - n))
    else pos n

half_range : (k : ℕ) → 0 < k → 2 ^ (k * 8) ≡ 2 ^ (k * 8 - 1) + 2 ^ (k * 8 - 1)
half_range k h = ap (λ (m : ℕ). 2 ^ m) (omega arith) ∙ two-pow-add (k * 8 - 1) 1 ∙ omega arith

in_range-lt :
    (info : IntegerInfo) (n : ℕ)
    → 0 < info.size
    → in_range info (pos n) ≡ true
    → n < 2 ^ (info.size * 8)
in_range-lt info n h e = ground (arith, half_range info.size h)

in_range-negative :
    (info : IntegerInfo) (n : ℕ)
    → in_range info (negsuc n) ≡ true
    → (info.signed ≡ true) × (n < 2 ^ (info.size * 8 - 1))
in_range-negative info n e = ground arith

-- Two's complement gives back every integer of the format's range.
as_integer-low_bits :
    (info : IntegerInfo) (v : ℤ)
    → 0 < info.size
    → in_range info v ≡ true
    → as_integer info (low_bits (info.size * 8) v) ≡ v
unfolding low_bits
as_integer-low_bits info (pos n) h e = rw (mod-eq_of_lt (in_range-lt info n h e)) (ground arith)
as_integer-low_bits info (negsuc n) h e =
    let (signed, small) = in_range-negative info n e in
    let double = half_range info.size h in
    let mod_small : n % 2 ^ (info.size * 8) ≡ n = mod-eq_of_lt (omega arith) in
    rw mod_small (ground arith)

unpack-bytes :
    (info : IntegerInfo) (e : Endian) (n : ℕ)
    → n < 2 ^ (info.size * 8)
    → unpack info e (if is_big e then to_big info.size n else to_little info.size n)
      ≡ as_integer info n
unfolding unpack
unpack-bytes info big n h = rw (to_big-number info.size n h)
unpack-bytes info little n h = rw (reverse-to_big info.size n, to_big-number info.size n h)
unpack-bytes info other_endian n h = rw (reverse-to_big info.size n, to_big-number info.size n h)

pack-eq-ok :
    (info : IntegerInfo) (e : Endian) (v : ℤ) {bs : List ℕ}
    → pack info e v ≡ ok bs
    → (in_range info v ≡ true)
      × (bs ≡ (
          if is_big e
          then to_big info.size (low_bits (info.size * 8) v)
          else to_little info.size (low_bits (info.size * 8) v)))
unfolding pack
pack-eq-ok info e v h = ground arith

-- the bytes of either order
either-length :
    (b : Bool) (k n : ℕ)
    → (length (if b then to_big k n else to_little k n) ≡ k)
      × AreBytes (if b then to_big k n else to_little k n)
either-length true k n = (length-to_big k n, to_big-AreBytes k n)
either-length false k n = (length-to_little k n, to_little-AreBytes k n)

-- What a format packs has the format's size, consists of bytes, and is read back by the same format
-- and byte order as the integer that was packed.
pub unpack-pack :
    (info : IntegerInfo) (e : Endian) (v : ℤ) {bs : List ℕ}
    → 0 < info.size
    → pack info e v ≡ ok bs
    → (unpack info e bs ≡ v) × (length bs ≡ info.size) × AreBytes bs
unpack-pack info e v pos_size h =
    let (fits, what) = pack-eq-ok info e v h in
    let n = low_bits (info.size * 8) v in
    let shape = either-length (is_big e) info.size n in
    rw what (
      unpack-bytes info e n (low_bits-lt (info.size * 8) v)
          ∙ as_integer-low_bits info v pos_size fits,
      shape.0,
      shape.1,
    )

pub get_integer_info-size : (t : FieldType) → 0 < (get_integer_info t).size
unfolding get_integer_info
get_integer_info-size t = ground arith
