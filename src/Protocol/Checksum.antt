-- ===== src/Protocol/Checksum.antt =====
-- `serialize_with_checksums` and the methods that find, cut out and compute a checksum.
use Prim.Native.Nat.{bit_xor}
use fuzzing_framework.Prelude.{
  ℕ, ◌+◌, ◌*◌, ◌/◌, ◌%◌, ◌^◌, Bool, ◌||◌, Option, none, some, List, [], ◌∷◌, ◌++◌, take, drop,
  is_some, if◌then◌else◌,
}
use fuzzing_framework.Prelude.Int.{pos}
use fuzzing_framework.Result.{Result, ok, ◌>>=◌}
use fuzzing_framework.Dict.{get}
use fuzzing_framework.Protocol.Model.{
  Value, null, bits_type, uint_type, int_type, Algorithm, crc32, adler32, sum, xor, sum8, sum16,
  other_algorithm, ChecksumOver, before, after, Block, Fields, Error,
}
use fuzzing_framework.Protocol.Integers.{get_integer_info, pack}
use fuzzing_framework.Protocol.Parse.{Codec, align}
use fuzzing_framework.Protocol.Serialize.{serialize_fields_to_bytes}
use fuzzing_framework.Protocol.AutoFix.{calculate_field_length, auto_fix_fields}

-- The functions of `zlib` that the parser calls.
pub record Zlib : Type 0 where
  pub crc : List ℕ → ℕ
  pub adler : List ℕ → ℕ

-- `sum(data)`
unfoldable pub sum_bytes : List ℕ → ℕ
sum_bytes [] = 0
sum_bytes (b ∷ bs) = b + sum_bytes bs

-- `result ^= byte` over the bytes
unfoldable pub xor_bytes : ℕ → List ℕ → ℕ
xor_bytes acc [] = acc
xor_bytes acc (b ∷ bs) = xor_bytes (bit_xor acc b) bs

-- `_calculate_checksum`
unfoldable pub calculate_checksum : Zlib → List ℕ → Algorithm → ℕ
unfolding sum_bytes xor_bytes
calculate_checksum zlib bs crc32 = zlib.crc bs % 2 ^ 32
calculate_checksum zlib bs adler32 = zlib.adler bs % 2 ^ 32
calculate_checksum zlib bs sum = sum_bytes bs % 2 ^ 32
calculate_checksum zlib bs xor = xor_bytes 0 bs
calculate_checksum zlib bs sum8 = sum_bytes bs % 2 ^ 8
calculate_checksum zlib bs sum16 = sum_bytes bs % 2 ^ 16
calculate_checksum zlib bs other_algorithm = zlib.crc bs % 2 ^ 32

-- `if 'size' in block: return block['size']`
abbrev bytes_or : Option ℕ → Result Error ℕ → Result Error ℕ
bytes_or (some n) unsized = ok n
bytes_or none unsized = unsized

-- `_get_field_size`
unfoldable pub get_field_size : Codec → Block → Value → Result Error ℕ
unfolding get_integer_info calculate_field_length
get_field_size codec b value = elim b.type [
  | bits_type ↦ elim b.size [ some n ↦ ok ((n + 7) / 8) | none ↦ ok 0 ]
  | uint_type w ↦ bytes_or b.size (ok (get_integer_info b.type).size)
  | int_type w ↦ bytes_or b.size (ok (get_integer_info b.type).size)
  | _ ↦ bytes_or b.size (calculate_field_length codec b value)
]

-- `_get_checksum_data`, once the size of the checksum field is known.
unfoldable pub checksum_part : ChecksumOver → List ℕ → ℕ → ℕ → List ℕ
checksum_part before bs offset size = take offset bs
checksum_part after bs offset size = drop (offset + size) bs
checksum_part _ bs offset size = take offset bs ++ drop (offset + size) bs

unfoldable pub get_checksum_data : Codec → List ℕ → Block → ℕ → Result Error (List ℕ)
unfolding get_field_size checksum_part
get_checksum_data codec bs b offset = elim b.checksum_over [
  | before ↦ ok (checksum_part before bs offset 0)
  | over ↦ do size ← get_field_size codec b null; ok (checksum_part over bs offset size)
]

-- `block.get('is_checksum') or block.get('checksum_algorithm')`
unfoldable pub is_checksum_field : Block → Bool
is_checksum_field b = b.is_checksum || is_some b.checksum_algorithm

-- `fields.get(name)`
abbrev pub value_of : Option Value → Value
value_of none = null
value_of (some v) = v

-- The bit offset behind a block.
unfoldable pub offset_after : Codec → Block → Fields → ℕ → Result Error ℕ
unfolding get_integer_info get_field_size align
offset_after codec b fields bit_offset = elim b.type [
  | bits_type ↦ elim b.size [ some n ↦ ok (bit_offset + n) | none ↦ ok bit_offset ]
  | uint_type w ↦ ok (align bit_offset + (get_integer_info b.type).size * 8)
  | int_type w ↦ ok (align bit_offset + (get_integer_info b.type).size * 8)
  | _ ↦ do
    size ← get_field_size codec b (value_of (get b.name fields))
    ok (align bit_offset + size * 8)
]

-- The first loop: the checksum fields with their byte offsets.
unfoldable pub find_checksums : Codec → Fields → List Block → ℕ → Result Error (List (Block × ℕ))
unfolding is_checksum_field offset_after align
find_checksums codec fields [] bit_offset = ok []
find_checksums codec fields (b ∷ bs) bit_offset =
    let is_one = is_checksum_field b in
    let start = if is_one then align bit_offset else bit_offset in
    do
      next ← offset_after codec b fields start
      rest ← find_checksums codec fields bs next
      ok (if is_one then (b, start / 8) ∷ rest else rest)

-- `block.get('checksum_algorithm', 'crc32')`
abbrev algorithm_of : Option Algorithm → Algorithm
algorithm_of none = crc32
algorithm_of (some a) = a

-- One round of the second loop: the checksum is packed and replaces its slice of the message.
unfoldable pub patch_checksum : Codec → Zlib → Block → ℕ → List ℕ → Result Error (List ℕ)
unfolding get_checksum_data calculate_checksum get_integer_info pack
patch_checksum codec zlib b offset bs = do
  part ← get_checksum_data codec bs b offset
  let info = get_integer_info b.type
  packed ←
      pack info b.endian (pos (calculate_checksum zlib part (algorithm_of b.checksum_algorithm)))
  ok (take offset bs ++ packed ++ drop (offset + info.size) bs)

unfoldable pub patch_checksums : Codec → Zlib → List (Block × ℕ) → List ℕ → Result Error (List ℕ)
unfolding patch_checksum
patch_checksums codec zlib [] bs = ok bs
patch_checksums codec zlib ((b, offset) ∷ rest) bs = do
  bs' ← patch_checksum codec zlib b offset bs
  patch_checksums codec zlib rest bs'

-- `_serialize_without_checksum`
unfoldable pub serialize_without_checksum : Codec → List Block → Fields → Result Error (List ℕ)
unfolding auto_fix_fields serialize_fields_to_bytes
serialize_without_checksum codec blocks fields = do
  fixed ← auto_fix_fields codec blocks fields
  serialize_fields_to_bytes codec blocks fixed

unfoldable pub serialize_with_checksums : Codec → Zlib → List Block → Fields → Result Error (List ℕ)
unfolding serialize_without_checksum find_checksums patch_checksums
serialize_with_checksums codec zlib blocks fields = do
  result ← serialize_without_checksum codec blocks fields
  found ← find_checksums codec fields blocks 0
  patch_checksums codec zlib found result
