-- ===== src/Protocol/Serialize.antt =====
-- `_serialize_fields_to_bytes` and the methods that it calls for each type of field.
pub mod Writing
pub mod Flushing
use Prim.Native.Nat.{bit_or}
use fuzzing_framework.Prelude.{
  ℕ, zero, suc, ◌+◌, ◌-◌, ◌*◌, ◌/◌, ◌%◌, ◌^◌, Bool, Option, none, some, ◌&&◌, List, [], ◌∷◌, ◌++◌,
  length, take, replicate, ltb, leb, if◌then◌else◌,
}
use fuzzing_framework.Prelude.Int.{ℤ, pos, negsuc, low_bits}
use fuzzing_framework.Result.{Result, ok, err, ◌>>=◌, map_err}
use fuzzing_framework.Dict.{get}
use fuzzing_framework.Protocol.Model.{
  Value, null, int, bytes, str, bits_type, bytes_type, string_type, other_type, uint_type, int_type,
  BitOrder, msb, lsb, Endian, Block, Fields, Error, unsupported_type, missing_key, type_error,
  codec_error, in_field, get_default_value,
}
use fuzzing_framework.Protocol.Integers.{to_little, to_big, serialize_integer_field}
use fuzzing_framework.Protocol.Parse.{Codec, is_little, pad_to_byte}

-- The local variables of the loop.
pub record Writer : Type 0 where
  pub result : List ℕ
  pub bit_offset : ℕ
  pub bit_buffer : ℕ
  pub bits_in_buffer : ℕ

abbrev pub empty_writer : Writer
empty_writer = record { result = []; bit_offset = 0; bit_buffer = 0; bits_in_buffer = 0 }

-- `if bits_in_buffer > 0: …`, which stands at each field that wants whole bytes.
unfoldable pub flush : Writer → Writer
flush w =
    let padded =
      if ltb w.bits_in_buffer 8 then w.bit_buffer * 2 ^ (8 - w.bits_in_buffer) else w.bit_buffer in
    if ltb 0 w.bits_in_buffer
    then record {
      result = w.result ++ (padded % 256) ∷ [];
      bit_offset = pad_to_byte w.bit_offset;
      bit_buffer = 0;
      bits_in_buffer = 0;
    }
    else w

-- `result.extend(serialized)`
abbrev pub extend : Writer → List ℕ → Writer
extend w bs = record w { result = w.result ++ bs; bit_offset = w.bit_offset + length bs * 8 }

-- One round of `while bits_in_buffer >= 8`.
unfoldable pub emit : BitOrder → Writer → Writer
emit msb w =
    let left = w.bits_in_buffer - 8 in
    record w {
      result = w.result ++ (w.bit_buffer / 2 ^ left % 256) ∷ [];
      bit_buffer = w.bit_buffer % 2 ^ left;
      bits_in_buffer = left;
    }
emit lsb w = record w {
  result = w.result ++ (w.bit_buffer % 256) ∷ [];
  bit_buffer = w.bit_buffer / 256;
  bits_in_buffer = w.bits_in_buffer - 8;
}

-- The loop, with fuel; `bits_in_buffer` rounds are always enough.
unfoldable pub emit_all : ℕ → BitOrder → Writer → Writer
unfolding emit
emit_all zero bit_order w = w
emit_all (suc fuel) bit_order w =
    let rest = emit_all fuel bit_order (emit bit_order w) in
    if leb 8 w.bits_in_buffer then rest else w

-- Adds the bits of a field to the buffer.
unfoldable pub push : BitOrder → ℕ → ℕ → Writer → Writer
push msb num_bits value w = record w {
  bit_buffer = bit_or (w.bit_buffer * 2 ^ num_bits) value;
  bits_in_buffer = w.bits_in_buffer + num_bits;
}
push lsb num_bits value w = record w {
  bit_buffer = bit_or w.bit_buffer (value * 2 ^ w.bits_in_buffer);
  bits_in_buffer = w.bits_in_buffer + num_bits;
}

-- `_serialize_bits_field`, called with the field's size, orders and a bit offset
unfoldable pub serialize_bits_field : ℤ → ℕ → BitOrder → Endian → ℕ → List ℕ
unfolding to_little to_big low_bits
serialize_bits_field v num_bits bit_order endian bit_offset =
    let value = low_bits num_bits v in
    let bit_in_byte = bit_offset % 8 in
    let bytes_needed = (bit_in_byte + num_bits + 7) / 8 in
    let shift : ℕ = elim bit_order [
      | msb ↦ bytes_needed * 8 - bit_in_byte - num_bits
      | lsb ↦ bit_in_byte
    ] in
    let packed = value * 2 ^ shift in
    if ltb 1 bytes_needed && is_little endian
    then to_little bytes_needed packed
    else to_big bytes_needed packed

-- The branch for `bits`, once the size is known.
unfoldable pub write_bits : ℤ → ℕ → BitOrder → Endian → Writer → Writer
unfolding flush emit_all push serialize_bits_field low_bits
write_bits v num_bits bit_order endian w =
    let value = low_bits num_bits v in
    let bytes_needed = (w.bits_in_buffer % 8 + num_bits + 7) / 8 in
    let flushed = flush w in
    let pushed = push bit_order num_bits value w in
    let emitted = emit_all pushed.bits_in_buffer bit_order pushed in
    if ltb 1 bytes_needed && is_little endian
    then record flushed {
      result = flushed.result ++ serialize_bits_field (pos value) num_bits bit_order endian 0;
      bit_offset = flushed.bit_offset + num_bits;
    }
    else record emitted { bit_offset = emitted.bit_offset + num_bits }

-- `_serialize_bytes_field` on bytes: a fixed size pads with zeros or cuts off.
unfoldable pub fit_bytes : Option ℕ → List ℕ → List ℕ
fit_bytes none value = value
fit_bytes (some size) value =
    if ltb (length value) size then value ++ replicate (size - length value) 0 else take size value

-- `bytes(value)` of a number is that many zero bytes, and is refused for other types.
unfoldable pub serialize_bytes_field : Value → Block → Result Error (List ℕ)
unfolding fit_bytes
serialize_bytes_field (bytes value) block = ok (fit_bytes block.size value)
serialize_bytes_field (int (pos n)) block = ok (fit_bytes block.size (replicate n 0))
serialize_bytes_field _ block = err type_error

-- `_serialize_string_field`
unfoldable pub serialize_string_field : Codec → Value → Block → Result Error (List ℕ)
unfolding fit_bytes
serialize_string_field codec (str t) block = elim (codec.encode block.encoding t) [
  | none ↦ err codec_error
  | some value ↦ ok (fit_bytes block.size value)
]
serialize_string_field codec _ block = err type_error

-- `block.get('default', self._get_default_value(field_type))`
abbrev pub default_of : Block → Value
default_of b = elim b.default [ none ↦ get_default_value b.type | some v ↦ v ]

abbrev pub value_or : Value → Option Value → Value
value_or d none = d
value_or d (some null) = d
value_or d (some v) = v

-- `fields.get(name)`, or the block's default where that gives `None`
unfoldable pub field_value : Block → Fields → Value
unfolding get_default_value
field_value b fields = value_or (default_of b) (get b.name fields)

-- One round of the loop.
unfoldable pub serialize_field : Codec → Block → Value → Writer → Result Error Writer
unfolding write_bits flush serialize_bytes_field serialize_integer_field serialize_string_field
serialize_field codec b value w = elim b.type [
  | bits_type ↦ elim b.size [
    | none ↦ err missing_key
    | some num_bits ↦ elim value [
      | int v ↦ ok (write_bits v num_bits b.bit_order b.endian w)
      | _ ↦ err type_error
    ]
  ]
  | bytes_type ↦ do bs ← serialize_bytes_field value b; ok (extend (flush w) bs)
  | uint_type _ ↦ do bs ← serialize_integer_field value b; ok (extend (flush w) bs)
  | int_type _ ↦ do bs ← serialize_integer_field value b; ok (extend (flush w) bs)
  | string_type ↦ do bs ← serialize_string_field codec value b; ok (extend (flush w) bs)
  | other_type ↦ err unsupported_type
]

unfoldable pub serialize_blocks : Codec → Fields → List Block → Writer → Result Error Writer
unfolding serialize_field field_value
serialize_blocks codec fields [] w = ok w
serialize_blocks codec fields (b ∷ bs) w = do
  w' ← map_err (in_field b.name) (serialize_field codec b (field_value b fields) w)
  serialize_blocks codec fields bs w'

-- The bytes at the end: the loop never leaves eight bits or more.
unfoldable pub serialize_fields_to_bytes : Codec → List Block → Fields → Result Error (List ℕ)
unfolding serialize_blocks flush
serialize_fields_to_bytes codec blocks fields = do
  w ← serialize_blocks codec fields blocks empty_writer
  ok (flush w).result
