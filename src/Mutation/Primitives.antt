-- ===== src/Mutation/Primitives.antt =====
-- core/engine/mutation_primitives.py.
use fuzzing_framework.Prelude.{
  ℕ, zero, suc, ◌-◌, ◌/◌, ◌^◌, ◌%◌, leb, Option, none, some, List, [], ◌∷◌, if◌then◌else◌,
}
use fuzzing_framework.Prelude.Int.{ℤ, pos, negsuc, ◌+ℤ◌, leb_ℤ, low_bits, xor_ℤ, sub_ℕ, neg_ℕ}
use fuzzing_framework.Result.{Result, ok, err, ◌>>=◌}
use fuzzing_framework.Protocol.Model.{
  FieldType, Width, w8, w16, w32, w64, other_width, bits_type, uint_type, int_type,
}
use fuzzing_framework.Mutation.Draws.{Random, Failure, value_error, draw}
use fuzzing_framework.Mutation.Bytes.{choose}

-- `field_info`: its type and its size. (A width that is no key of the parser's table is taken for a name
-- without any of the four numbers, such as `uint24`.)
pub record FieldInfo : Type 0 where
  pub type : FieldType
  pub size : Option ℕ

-- `_extract_bit_width`
unfoldable pub extract_bit_width : Width → ℕ
extract_bit_width w8 = 8
extract_bit_width w16 = 16
extract_bit_width w32 = 32
extract_bit_width w64 = 64
extract_bit_width other_width = 32

-- `ARITHMETIC_DELTAS`
abbrev pub arithmetic_deltas : List ℤ
arithmetic_deltas =
    negsuc 127
    ∷ negsuc 63
    ∷ negsuc 31
    ∷ negsuc 15
    ∷ negsuc 7
    ∷ negsuc 3
    ∷ negsuc 1
    ∷ negsuc 0
    ∷ pos 1
    ∷ pos 2
    ∷ pos 4
    ∷ pos 8
    ∷ pos 16
    ∷ pos 32
    ∷ pos 64
    ∷ pos 128
    ∷ []

-- `INTERESTING_VALUES`, and the list that a bit width selects.
unfoldable pub interesting_values : ℕ → List ℕ
interesting_values bit_width =
    if leb bit_width 8
    then 0 ∷ 1 ∷ 127 ∷ 128 ∷ 255 ∷ []
    else if leb bit_width 16
    then 0 ∷ 1 ∷ 255 ∷ 256 ∷ 32767 ∷ 32768 ∷ 65535 ∷ []
    else if leb bit_width 32
    then 0 ∷ 1 ∷ 65535 ∷ 65536 ∷ 0x7fffffff ∷ 0x80000000 ∷ 0xffffffff ∷ []
    else 0 ∷ 1 ∷ 0xffffffff ∷ 0x100000000 ∷ 0x7fffffffffffffff ∷ 0x8000000000000000
      ∷ 0xffffffffffffffff ∷ []

-- `field_info.get("size", 32)`
abbrev size_or_32 : Option ℕ → ℕ
size_or_32 none = 32
size_or_32 (some size) = size

-- `max(lo, min(hi, v))`
unfoldable pub clamp : ℤ → ℤ → ℤ → ℤ
clamp lo hi v = let low = if leb_ℤ hi v then hi else v in if leb_ℤ low lo then lo else low

-- `-(1 << (bit_width - 1))` and `(1 << (bit_width - 1)) - 1`
abbrev pub min_value : ℕ → ℤ
min_value bit_width = neg_ℕ (2 ^ (bit_width - 1))

abbrev pub max_value : ℕ → ℤ
max_value bit_width = pos (2 ^ (bit_width - 1) - 1)

-- The clamping of `apply_arithmetic_mutation`.
unfoldable pub fit_value : Option FieldInfo → ℤ → ℤ
unfolding extract_bit_width low_bits clamp
fit_value none v = v
fit_value (some info) v = elim info.type [
  | bits_type ↦ pos (low_bits (size_or_32 info.size) v)
  | uint_type w ↦ pos (low_bits (extract_bit_width w) v)
  | int_type w ↦ clamp (min_value (extract_bit_width w)) (max_value (extract_bit_width w)) v
  | _ ↦ v
]

-- The bit width of `select_interesting_value`.
unfoldable pub width_of : Option FieldInfo → Option ℕ → ℕ
unfolding extract_bit_width
width_of info (some bit_width) = bit_width
width_of none none = 32
width_of (some info) none = elim info.type [
  | bits_type ↦ size_or_32 info.size
  | uint_type w ↦ extract_bit_width w
  | int_type w ↦ extract_bit_width w
  | _ ↦ 32
]

-- `generate_boundary_values` for the unsigned types of a width.
abbrev unsigned_boundaries : ℕ → List ℤ
unsigned_boundaries bits =
    let top = 2 ^ bits - 1 in pos 0 ∷ pos 1 ∷ pos (top / 2) ∷ sub_ℕ top 1 ∷ pos top ∷ []

-- `generate_boundary_values`
unfoldable pub generate_boundary_values : FieldInfo → List ℤ
unfolding extract_bit_width
generate_boundary_values info = elim info.type [
  | bits_type ↦ unsigned_boundaries (size_or_32 info.size)
  | uint_type w ↦ unsigned_boundaries (extract_bit_width w)
  | int_type w ↦
      let bits = extract_bit_width w in
      min_value bits
      ∷ (min_value bits +ℤ pos 1)
      ∷ negsuc 0
      ∷ pos 0
      ∷ pos 1
      ∷ (max_value bits +ℤ negsuc 0)
      ∷ max_value bits
      ∷ []
  | _ ↦ []
]

module _ (r : Random) where
  -- `apply_arithmetic_mutation`
  unfoldable pub apply_arithmetic_mutation : ℕ → ℤ → Option FieldInfo → Result Failure (ℤ × ℕ)
  unfolding choose fit_value
  apply_arithmetic_mutation n value info = do
    (delta, n') ← choose r n arithmetic_deltas
    ok (fit_value info (value +ℤ delta), n')

  -- `select_interesting_value`
  unfoldable pub select_interesting_value : ℕ → Option FieldInfo → Option ℕ → Result Failure (ℤ × ℕ)
  unfolding choose width_of interesting_values
  select_interesting_value n info bit_width = do
    (value, n') ← choose r n (interesting_values (width_of info bit_width))
    ok (pos (value % 2 ^ width_of info bit_width), n')

  -- `random.randint(0, num_bits - 1)`
  unfoldable pub draw_bit : ℕ → ℕ → Result Failure (ℕ × ℕ)
  unfolding draw
  draw_bit n zero = err value_error
  draw_bit n (suc top) = draw r n 0 top

  -- The loop of `flip_random_bits`.
  unfoldable pub flip_loop : ℕ → ℕ → ℕ → ℤ → Result Failure (ℤ × ℕ)
  unfolding draw_bit xor_ℤ
  flip_loop zero n num_bits value = ok (value, n)
  flip_loop (suc num_flips) n num_bits value = do
    (bit_pos, n') ← draw_bit n num_bits
    flip_loop num_flips n' num_bits (xor_ℤ value (pos (2 ^ bit_pos)))

  -- `flip_random_bits`
  unfoldable pub flip_random_bits : ℕ → ℤ → ℕ → ℕ → Result Failure (ℤ × ℕ)
  unfolding flip_loop low_bits
  flip_random_bits n value num_bits num_flips = do
    (flipped, n') ← flip_loop num_flips n num_bits value
    ok (pos (low_bits num_bits flipped), n')

  -- `generate_power_of_two_pattern`
  unfoldable pub generate_power_of_two_pattern : ℕ → ℕ → Result Failure (ℤ × ℕ)
  unfolding draw_bit
  generate_power_of_two_pattern n num_bits = do
    (bit_pos, n') ← draw_bit n num_bits
    ok (pos (2 ^ bit_pos), n')
