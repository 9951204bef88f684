-- ===== src/Protocol/Parse.antt =====
-- `parse` and the methods that it calls for each type of field.
use mathlib.Core.List.{reverse}
use text.Mathlib.Text.{◌==◌ as same_text}
use fuzzing_framework.Prelude.{
  ℕ, ◌+◌, ◌-◌, ◌*◌, ◌/◌, ◌%◌, ◌^◌, min, String, Bool, true, false, Option, none, some, ◌&&◌, List,
  [], ◌∷◌, length, take, drop, ltb, ◌==◌, if◌then◌else◌,
}
use fuzzing_framework.Prelude.Int.{ℤ, pos, negsuc}
use fuzzing_framework.Result.{Result, ok, err, ◌>>=◌, map_err}
use fuzzing_framework.Dict.{get, put}
use fuzzing_framework.Protocol.Model.{
  Value, int, bytes, str, bits_type, bytes_type, string_type, other_type, uint_type, int_type,
  BitOrder, msb, lsb, Endian, little, SizeUnit, in_bits, in_bytes, in_words, in_dwords, other_unit,
  SizeOf, no_target, target, targets, Block, Fields, Error, not_enough_data, unsupported_type,
  missing_key, type_error, codec_error, outside_model, in_field,
}
use fuzzing_framework.Protocol.Integers.{from_big, parse_integer_field}

-- `str.encode` and `bytes.decode` of the Python runtime, by the name of an encoding: `none` is an
-- error, which `decode` divides into malformed input (UnicodeDecodeError) and the rest; and `str` of
-- an integer.
pub data Decoded : Type 0 where
  plain : List ℕ → Decoded
  malformed unknown_encoding : Decoded

pub record Codec : Type 0 where
  pub encode : String → List ℕ → Option (List ℕ)
  pub decode : String → List ℕ → Decoded
  pub show : ℤ → List ℕ

-- `((bit_offset + 7) // 8) * 8`
abbrev pub pad_to_byte : ℕ → ℕ
pad_to_byte n = (n + 7) / 8 * 8

-- `if bit_offset % 8 != 0: …`
unfoldable pub align : ℕ → ℕ
align n = if n % 8 == 0 then n else pad_to_byte n

abbrev pub is_little : Endian → Bool
is_little little = true
is_little _ = false

-- `shift` of `_parse_bits_field`
abbrev pub shift_for : BitOrder → ℕ → ℕ → ℕ → ℕ
shift_for msb bytes_needed bit_in_byte num_bits = bytes_needed * 8 - bit_in_byte - num_bits
shift_for lsb bytes_needed bit_in_byte num_bits = bit_in_byte

-- `_parse_bits_field` once the size is known: the bytes that hold the field, read as one number in
-- the order of `endian`, shifted, and masked by `(1 << num_bits) - 1`.
unfoldable pub extract_bits : List ℕ → ℕ → ℕ → BitOrder → Endian → Result Error (ℤ × ℕ)
unfolding from_big
extract_bits data' bit_offset num_bits bit_order endian =
    let byte_offset = bit_offset / 8 in
    let bit_in_byte = bit_offset % 8 in
    let bytes_needed = (bit_in_byte + num_bits + 7) / 8 in
    let part = take bytes_needed (drop byte_offset data') in
    let value =
      if ltb 1 bytes_needed && is_little endian
      then from_big 0 (reverse part)
      else from_big 0 part in
    let shift = shift_for bit_order bytes_needed bit_in_byte num_bits in
    if ltb (length data') (byte_offset + bytes_needed)
    then err not_enough_data
    else ok (pos (value / 2 ^ shift % 2 ^ num_bits), num_bits)

unfoldable pub parse_bits_field : List ℕ → ℕ → Block → Result Error (ℤ × ℕ)
unfolding extract_bits
parse_bits_field data' bit_offset block = elim block.size [
  | none ↦ err missing_key
  | some num_bits ↦ extract_bits data' bit_offset num_bits block.bit_order block.endian
]

-- `[target for target in size_of if isinstance(target, str)]`
unfoldable pub text_targets : List (Option String) → List String
text_targets [] = []
text_targets (none ∷ ts) = text_targets ts
text_targets (some t ∷ ts) = t ∷ text_targets ts

-- `_normalize_size_of_targets`
unfoldable pub normalize_size_of_targets : SizeOf → List String
unfolding text_targets
normalize_size_of_targets no_target = []
normalize_size_of_targets (target t) = t ∷ []
normalize_size_of_targets (targets ts) = text_targets ts

-- `len(targets) == 1 and targets[0] == target_field`
abbrev pub is_only : String → List String → Bool
is_only name (t ∷ []) = same_text t name
is_only name _ = false

-- `_find_length_field_for`
unfoldable pub find_length_field_for : List Block → String → Option Block
unfolding normalize_size_of_targets
find_length_field_for [] name = none
find_length_field_for (b ∷ bs) name =
    if b.is_size_field && is_only name (normalize_size_of_targets b.size_of)
    then some b
    else find_length_field_for bs name

-- The value of a size field, in bytes.
unfoldable pub size_to_bytes : SizeUnit → ℕ → ℕ
size_to_bytes in_bits n = (n + 7) / 8
size_to_bytes in_words n = n * 4
size_to_bytes in_dwords n = n * 2
size_to_bytes in_bytes n = n
size_to_bytes other_unit n = n

-- `data[offset:offset + size], size`
abbrev pub slice : List ℕ → ℕ → ℕ → List ℕ × ℕ
slice data' offset size = (take size (drop offset data'), size)

-- The size that a length field gives, when its value is there.
abbrev sized_by : List ℕ → ℕ → ℕ → SizeUnit → Value → Result Error (List ℕ × ℕ)
sized_by data' offset max_size unit (int (pos n)) =
    let size = min (size_to_bytes unit n) max_size in
    if ltb (length data') (offset + size)
    then ok (slice data' offset (length data' - offset))
    else ok (slice data' offset size)
sized_by data' offset max_size unit (int (negsuc n)) = err outside_model
sized_by data' offset max_size unit _ = err type_error

-- `length_field and length_field['name'] in parsed_fields`
abbrev pub length_value : Option Block → Fields → Option (SizeUnit × Value)
length_value none parsed = none
length_value (some b) parsed = elim (get b.name parsed) [
  | none ↦ none
  | some v ↦ some (b.size_unit, v)
]

-- The branch of `_parse_bytes_field` for a `max_size`.
unfoldable pub parse_variable :
    List ℕ → ℕ → ℕ → Option (SizeUnit × Value) → Result Error (List ℕ × ℕ)
unfolding size_to_bytes
parse_variable data' offset max_size (some (unit, v)) = sized_by data' offset max_size unit v
parse_variable data' offset max_size none =
    ok (slice data' offset (min max_size (length data' - offset)))

-- `_parse_bytes_field`; `blocks` is `self.blocks`.
unfoldable pub parse_bytes_field :
    List Block → List ℕ → ℕ → Block → Fields → Result Error (List ℕ × ℕ)
unfolding find_length_field_for parse_variable
parse_bytes_field blocks data' offset block parsed = elim block.size [
  | some size ↦
      if ltb (length data') (offset + size)
      then err not_enough_data
      else ok (slice data' offset size)
  | none ↦ elim block.max_size [
    | some max_size ↦
        parse_variable data' offset max_size
          (length_value (find_length_field_for blocks block.name) parsed)
    | none ↦ ok (drop offset data', length data' - offset)
  ]
]

-- `latin-1` gives each byte as a code point.
abbrev pub decoded : Decoded → List ℕ → Result Error (List ℕ)
decoded (plain t) raw = ok t
decoded malformed raw = ok raw
decoded unknown_encoding raw = err codec_error

-- `_parse_string_field`
unfoldable pub parse_string_field :
    Codec → List Block → List ℕ → ℕ → Block → Fields → Result Error (List ℕ × ℕ)
unfolding parse_bytes_field
parse_string_field codec blocks data' offset block parsed = do
  (raw, consumed) ← parse_bytes_field blocks data' offset block parsed
  value ← decoded (codec.decode block.encoding raw) raw
  ok (value, consumed)

-- One round of the loop of `parse`: the value of the block, and the new `bit_offset`.
unfoldable pub parse_field :
    Codec → List Block → List ℕ → ℕ → Block → Fields → Result Error (Value × ℕ)
unfolding parse_bits_field parse_bytes_field parse_integer_field parse_string_field align
parse_field codec blocks data' bit_offset block parsed = elim block.type [
  | bits_type ↦ do
    (value, bits_consumed) ← parse_bits_field data' bit_offset block
    ok (int value, bit_offset + bits_consumed)
  | bytes_type ↦ do
    let bit_offset' = align bit_offset
    (value, bytes_consumed) ← parse_bytes_field blocks data' (bit_offset' / 8) block parsed
    ok (bytes value, bit_offset' + bytes_consumed * 8)
  | uint_type w ↦ do
    let bit_offset' = align bit_offset
    (value, bytes_consumed) ← parse_integer_field data' (bit_offset' / 8) block
    ok (int value, bit_offset' + bytes_consumed * 8)
  | int_type w ↦ do
    let bit_offset' = align bit_offset
    (value, bytes_consumed) ← parse_integer_field data' (bit_offset' / 8) block
    ok (int value, bit_offset' + bytes_consumed * 8)
  | string_type ↦ do
    let bit_offset' = align bit_offset
    (value, bytes_consumed) ← parse_string_field codec blocks data' (bit_offset' / 8) block parsed
    ok (str value, bit_offset' + bytes_consumed * 8)
  | other_type ↦ err unsupported_type
]

-- The loop of `parse` over the blocks that are left.
unfoldable pub parse_blocks :
    Codec → List Block → List ℕ → List Block → ℕ → Fields → Result Error Fields
unfolding parse_field
parse_blocks codec blocks data' [] bit_offset fields = ok fields
parse_blocks codec blocks data' (b ∷ bs) bit_offset fields = do
  (value, bit_offset') ←
      map_err (in_field b.name) (parse_field codec blocks data' bit_offset b fields)
  parse_blocks codec blocks data' bs bit_offset' (put b.name value fields)

unfoldable pub parse : Codec → List Block → List ℕ → Result Error Fields
unfolding parse_blocks
parse codec blocks data' = parse_blocks codec blocks data' blocks 0 []
