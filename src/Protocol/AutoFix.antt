-- ===== src/Protocol/AutoFix.antt =====
-- `_auto_fix_fields` and the methods that measure a field.
pub mod Units
pub mod Fixed
use fuzzing_framework.Prelude.{
  ℕ, zero, suc, ◌+◌, ◌*◌, ◌/◌, String, Bool, Option, none, some, List, [], ◌∷◌, length, is_some,
  if◌then◌else◌,
}
use text.Mathlib.Text.{◌==◌ as same_text}
use fuzzing_framework.Prelude.Int.{ℤ, pos, negsuc}
use fuzzing_framework.Result.{Result, ok, err, ◌>>=◌}
use fuzzing_framework.Dict.{get, put}
use fuzzing_framework.Protocol.Model.{
  Value, null, int, bytes, str, bits_type, bytes_type, string_type, other_type, uint_type, int_type,
  SizeUnit, in_bits, in_bytes, in_words, in_dwords, other_unit, Block, Fields, Error, codec_error,
  type_error, get_default_value,
}
use fuzzing_framework.Protocol.Integers.{get_integer_info}
use fuzzing_framework.Protocol.Parse.{Codec, normalize_size_of_targets}
use fuzzing_framework.Protocol.Serialize.{default_of, value_or}

-- `_get_block`; `none` stands for the empty dict.
unfoldable pub get_block : List Block → String → Option Block
get_block [] name = none
get_block (b ∷ bs) name = if same_text b.name name then some b else get_block bs name

-- `len(text.encode(encoding)) * 8`
abbrev encoded_bits : Option (List ℕ) → Result Error ℕ
encoded_bits none = err codec_error
encoded_bits (some bs) = ok (length bs * 8)

-- The part of `_calculate_field_length` for `bytes`, by the type of the value.
unfoldable pub bytes_length : Codec → String → Value → Result Error ℕ
bytes_length codec encoding null = ok 0
bytes_length codec encoding (bytes bs) = ok (length bs * 8)
bytes_length codec encoding (int (pos n)) = ok (n * 8)
bytes_length codec encoding (int (negsuc n)) = err type_error
bytes_length codec encoding (str t) = encoded_bits (codec.encode encoding t)

-- The part for `string`.
unfoldable pub string_length : Codec → String → Value → Result Error ℕ
string_length codec encoding null = ok 0
string_length codec encoding (bytes bs) = ok (length bs * 8)
string_length codec encoding (str t) = encoded_bits (codec.encode encoding t)
string_length codec encoding (int v) = encoded_bits (codec.encode encoding (codec.show v))

-- The fallback for other types.
unfoldable pub other_length : Codec → String → Value → Result Error ℕ
other_length codec encoding (bytes bs) = ok (length bs * 8)
other_length codec encoding (str t) = encoded_bits (codec.encode encoding t)
other_length codec encoding _ = ok 0

-- `if isinstance(fixed_size, int): return fixed_size * 8`
abbrev bits_or : Option ℕ → Result Error ℕ → Result Error ℕ
bits_or (some n) unsized = ok (n * 8)
bits_or none unsized = unsized

-- `_calculate_field_length`, in bits
unfoldable pub calculate_field_length : Codec → Block → Value → Result Error ℕ
unfolding get_integer_info bytes_length string_length other_length
calculate_field_length codec b value = elim b.type [
  | bits_type ↦ elim b.size [ some n ↦ ok n | none ↦ ok 0 ]
  | uint_type w ↦ bits_or b.size (ok ((get_integer_info b.type).size * 8))
  | int_type w ↦ bits_or b.size (ok ((get_integer_info b.type).size * 8))
  | bytes_type ↦ bits_or b.size (bytes_length codec b.encoding value)
  | string_type ↦ bits_or b.size (string_length codec b.encoding value)
  | other_type ↦ bits_or b.size (other_length codec b.encoding value)
]

-- The bits of one target, at its value or its default; a name that no block has counts nothing.
unfoldable pub target_length : Codec → List Block → Fields → String → Result Error ℕ
unfolding get_block calculate_field_length get_default_value
target_length codec blocks fields name = elim (get_block blocks name) [
  | none ↦ ok 0
  | some b ↦ calculate_field_length codec b (value_or (default_of b) (get name fields))
]

-- `total_length_bits`
unfoldable pub total_length : Codec → List Block → Fields → List String → ℕ → Result Error ℕ
unfolding target_length
total_length codec blocks fields [] total = ok total
total_length codec blocks fields (t ∷ ts) total = do
  n ← target_length codec blocks fields t
  total_length codec blocks fields ts (total + n)

-- The unit of the size field; all but bits round up.
unfoldable pub to_unit : SizeUnit → ℕ → ℕ
to_unit in_bits total = total
to_unit in_bytes total = (total + 7) / 8
to_unit in_words total = (total + 31) / 32
to_unit in_dwords total = (total + 15) / 16
to_unit other_unit total = (total + 7) / 8

-- One round of the loop over a size field whose targets are known.
unfoldable pub fix_field : Codec → List Block → Block → List String → Fields → Result Error Fields
unfolding total_length to_unit
fix_field codec blocks b [] fields = ok fields
fix_field codec blocks b (t ∷ ts) fields = do
  total ← total_length codec blocks fields (t ∷ ts) 0
  ok (put b.name (int (pos (to_unit b.size_unit total))) fields)

-- The loop of `_auto_fix_fields` over the blocks that are left.
unfoldable pub fix_blocks : Codec → List Block → List Block → Fields → Result Error Fields
unfolding fix_field normalize_size_of_targets
fix_blocks codec blocks [] fields = ok fields
fix_blocks codec blocks (b ∷ bs) fields = do
  fields' ←
      if b.is_size_field
      then fix_field codec blocks b (normalize_size_of_targets b.size_of) fields
      else ok fields
  fix_blocks codec blocks bs fields'

unfoldable pub auto_fix_fields : Codec → List Block → Fields → Result Error Fields
unfolding fix_blocks
auto_fix_fields codec blocks fields = fix_blocks codec blocks blocks fields
