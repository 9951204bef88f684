-- ===== src/Mutation/Fitting.antt =====
-- Mutated integers against the serializer.
use fuzzing_framework.Prelude.{
  ℕ, suc, ◌+◌, ◌-◌, ◌*◌, ◌^◌, ◌<◌, ◌≡◌, refl, Bool, true, false, Option, some, List, arith, length,
  leb, if◌then◌else◌,
}
use fuzzing_framework.Prelude.Int.{ℤ, pos, negsuc, ◌+ℤ◌, leb_ℤ, ◌≤ℤ◌, low_bits}
use fuzzing_framework.Result.{ok}
use fuzzing_framework.Transform.Invert.{low_bits-lt}
use fuzzing_framework.Protocol.Model.{
  Endian, Block, FieldType, Width, w8, w16, w32, w64, other_width, uint_type, int_type, int,
}
use fuzzing_framework.Protocol.Integers.{
  IntegerInfo, get_integer_info, in_range, pack, is_big, to_big, to_little, wrap,
  serialize_integer_field,
}
use fuzzing_framework.Mutation.Draws.{Random, IsRandom}
use fuzzing_framework.Mutation.Primitives.{
  FieldInfo, clamp, fit_value, interesting_values, arithmetic_deltas, apply_arithmetic_mutation,
}
use fuzzing_framework.Mutation.Yields.{Yields, ok-Yields, >>=-Yields, choose-Yields}
use fuzzing_framework.Mutation.Kept.{unit-All}

-- From `-p` to `p - 1`.
abbrev IsSigned : ℕ → ℤ → Type 0
IsSigned p (pos n) = n < p
IsSigned p (negsuc n) = n < p

-- The outer half of `clamp`.
abbrev at_least : ℤ → ℤ → ℤ
at_least lo v = if leb_ℤ v lo then lo else v

at_least-IsSigned : (q : ℕ) (v : ℤ) → (v ≤ℤ pos q) → IsSigned (suc q) (at_least (negsuc q) v)
at_least-IsSigned q (pos n) h = by_test (leb (n + suc q) 0) (ground arith)
  where
    by_test : (b : Bool) → b ≡ false → IsSigned (suc q) (if b then negsuc q else pos n)
    by_test true e = absurd (cc e)
    by_test false e = omega arith
at_least-IsSigned q (negsuc n) h = by_test (leb_ℤ (negsuc n) (negsuc q)) refl
  where
    by_test :
        (b : Bool)
        → leb_ℤ (negsuc n) (negsuc q) ≡ b
        → IsSigned (suc q) (if b then negsuc q else negsuc n)
    by_test true e = ground arith
    by_test false e = ground arith

at_most : (q : ℕ) (v : ℤ) → (if leb_ℤ (pos q) v then pos q else v) ≤ℤ pos q
at_most q v = by_test (leb_ℤ (pos q) v) refl
  where
    by_test : (b : Bool) → leb_ℤ (pos q) v ≡ b → (if b then pos q else v) ≤ℤ pos q
    by_test true e = ground arith
    by_test false e = ground arith

clamp-IsSigned : (q : ℕ) (v : ℤ) → IsSigned (suc q) (clamp (negsuc q) (pos q) v)
unfolding clamp
clamp-IsSigned q v = at_least-IsSigned q (if leb_ℤ (pos q) v then pos q else v) (at_most q v)

-- The types of integers that the parser has a format for.
unfoldable pub is_integer_format : FieldType → Bool
is_integer_format (uint_type w8) = true
is_integer_format (uint_type w16) = true
is_integer_format (uint_type w32) = true
is_integer_format (uint_type w64) = true
is_integer_format (int_type w8) = true
is_integer_format (int_type w16) = true
is_integer_format (int_type w32) = true
is_integer_format (int_type w64) = true
is_integer_format _ = false

-- What the mutators see of a block.
abbrev pub info_of : Block → FieldInfo
info_of b = record { type = b.type; size = b.size }

-- The bits of a width that the formats have.
abbrev pub bits_of : Width → ℕ
bits_of w8 = 8
bits_of w16 = 16
bits_of w32 = 32
bits_of w64 = 64
bits_of other_width = 0

-- The value lies within the field's format.
abbrev pub IsHeld : FieldType → ℤ → Type 0
IsHeld (uint_type w) (pos n) = n < 2 ^ bits_of w
IsHeld (uint_type w) (negsuc n) = ⊥
IsHeld (int_type w) (pos n) = n < 2 ^ (bits_of w - 1)
IsHeld (int_type w) (negsuc n) = n < 2 ^ (bits_of w - 1)
IsHeld _ v = ⊥

signed-IsHeld : (w : Width) (v : ℤ) → IsSigned (2 ^ (bits_of w - 1)) v → IsHeld (int_type w) v
signed-IsHeld w (pos n) h = h
signed-IsHeld w (negsuc n) h = h

-- The serializer takes the value.
abbrev pub IsSerialized : Block → ℤ → Type 0
IsSerialized b v = (bs : List ℕ) × (serialize_integer_field (int v) b ≡ ok bs)

packs :
    (info : IntegerInfo) (e : Endian) (v : ℤ)
    → in_range info v ≡ true
    → (bs : List ℕ) × (pack info e v ≡ ok bs)
packs info e v fits =
    let n = low_bits (info.size * 8) v in
    let bs = if is_big e then to_big info.size n else to_little info.size n in
    (bs, unfold pack in rw fits refl)

signed-in_range :
    (info : IntegerInfo) (q : ℕ) (v : ℤ)
    → info.signed ≡ true
    → suc q ≡ 2 ^ (info.size * 8 - 1)
    → IsSigned (suc q) v
    → in_range info v ≡ true
signed-in_range info q (pos n) signed size h = rw signed (ground (arith, size))
signed-in_range info q (negsuc n) signed size h = rw signed (ground (arith, size))

unsigned-in_range :
    (info : IntegerInfo) (v : ℤ)
    → info.signed ≡ false
    → in_range info (pos (low_bits (info.size * 8) v)) ≡ true
unsigned-in_range info v unsigned = rw unsigned (ground (arith, low_bits-lt (info.size * 8) v))

unsigned_packs :
    (w : Width) (e : Endian) (v : ℤ)
    → (get_integer_info (uint_type w)).signed ≡ false
    → (bs : List ℕ) × (pack (get_integer_info (uint_type w)) e (wrap (uint_type w) v) ≡ ok bs)
unsigned_packs w e v unsigned =
    packs (get_integer_info (uint_type w)) e (wrap (uint_type w) v)
      (unsigned-in_range (get_integer_info (uint_type w)) v unsigned)

-- Clamped to its bounds, a signed value fits the format.
signed_packs :
    (w : Width) (q : ℕ) (e : Endian) (v : ℤ)
    → (get_integer_info (int_type w)).signed ≡ true
    → suc q ≡ 2 ^ ((get_integer_info (int_type w)).size * 8 - 1)
    → (bs : List ℕ) × (pack (get_integer_info (int_type w)) e (clamp (negsuc q) (pos q) v) ≡ ok bs)
signed_packs w q e v signed size =
    packs (get_integer_info (int_type w)) e (clamp (negsuc q) (pos q) v) (
      signed-in_range (get_integer_info (int_type w)) q (clamp (negsuc q) (pos q) v) signed size
        (clamp-IsSigned q v))

abbrev fitted : FieldType → Option ℕ → ℤ → ℤ
fitted t size v = fit_value (some (record { type = t; size = size })) v

fitted_packs :
    (t : FieldType) (size : Option ℕ) (e : Endian) (v : ℤ)
    → is_integer_format t ≡ true
    → (bs : List ℕ) × (pack (get_integer_info t) e (wrap t (fitted t size v)) ≡ ok bs)
unfolding is_integer_format fit_value get_integer_info
fitted_packs (uint_type w8) size e v h = unsigned_packs w8 e (fitted (uint_type w8) size v) refl
fitted_packs (uint_type w16) size e v h = unsigned_packs w16 e (fitted (uint_type w16) size v) refl
fitted_packs (uint_type w32) size e v h = unsigned_packs w32 e (fitted (uint_type w32) size v) refl
fitted_packs (uint_type w64) size e v h = unsigned_packs w64 e (fitted (uint_type w64) size v) refl
fitted_packs (int_type w8) size e v h = signed_packs w8 0x7f e v refl refl
fitted_packs (int_type w16) size e v h = signed_packs w16 0x7fff e v refl refl
fitted_packs (int_type w32) size e v h = signed_packs w32 0x7fffffff e v refl refl
fitted_packs (int_type w64) size e v h = signed_packs w64 0x7fffffffffffffff e v refl refl
fitted_packs _ size e v h = absurd (ground arith)

fitted-IsHeld :
    (t : FieldType) (size : Option ℕ) (v : ℤ)
    → is_integer_format t ≡ true
    → IsHeld t (fitted t size v)
unfolding is_integer_format fit_value
fitted-IsHeld (uint_type w8) size v h = low_bits-lt 8 v
fitted-IsHeld (uint_type w16) size v h = low_bits-lt 16 v
fitted-IsHeld (uint_type w32) size v h = low_bits-lt 32 v
fitted-IsHeld (uint_type w64) size v h = low_bits-lt 64 v
fitted-IsHeld (int_type w8) size v h =
    signed-IsHeld w8 (clamp (negsuc 0x7f) (pos 0x7f) v) (clamp-IsSigned 0x7f v)
fitted-IsHeld (int_type w16) size v h =
    signed-IsHeld w16 (clamp (negsuc 0x7fff) (pos 0x7fff) v) (clamp-IsSigned 0x7fff v)
fitted-IsHeld (int_type w32) size v h =
    signed-IsHeld w32 (clamp (negsuc 0x7fffffff) (pos 0x7fffffff) v) (clamp-IsSigned 0x7fffffff v)
fitted-IsHeld (int_type w64) size v h =
    signed-IsHeld w64 (clamp (negsuc 0x7fffffffffffffff) (pos 0x7fffffffffffffff) v)
      (clamp-IsSigned 0x7fffffffffffffff v)
fitted-IsHeld _ size v h = absurd (ground arith)

-- An arithmetic mutation of a value of an integer field, whatever the value, never fails; its result
-- lies within the format of the field, from 0 to 2 ^ w - 1 or, signed, from - 2 ^ (w - 1) to
-- 2 ^ (w - 1) - 1 for a width of w bits; and the serializer takes it.
pub apply_arithmetic_mutation-IsSerialized :
    (r : Random) (n : ℕ) (b : Block) (v : ℤ)
    → IsRandom r
    → is_integer_format b.type ≡ true
    → Yields
        (λ (out : ℤ × ℕ). IsHeld b.type out.0 × IsSerialized b out.0)
        (apply_arithmetic_mutation r n v (some (info_of b)))
unfolding apply_arithmetic_mutation serialize_integer_field
apply_arithmetic_mutation-IsSerialized r n b v is_random format =
    >>=-Yields _ _
      (choose-Yields r is_random (λ d. Unit) n arithmetic_deltas (omega arith)
        (unit-All arithmetic_deltas))
      (λ d _. ok-Yields _ _ (
        fitted-IsHeld b.type b.size (v +ℤ d.0) format,
        fitted_packs b.type b.size b.endian (v +ℤ d.0) format,
      ))

-- The last of the interesting values of a width.
abbrev last_index : ℕ → ℕ
last_index bit_width = length (interesting_values bit_width) - 1
