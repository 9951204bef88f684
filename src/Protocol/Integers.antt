-- ===== src/Protocol/Integers.antt =====
-- Integer fields: `_get_integer_info`, `_parse_integer_field` and `_serialize_integer_field`, with
-- the formats of `struct.pack` and `struct.unpack` that they use.
pub mod RoundTrip
use mathlib.Core.List.{reverse}
use Prim.Native.Nat.{bit_or}
use fuzzing_framework.Prelude.{
  ℕ, zero, suc, ◌+◌, ◌-◌, ◌*◌, ◌/◌, ◌%◌, ◌^◌, Bool, true, false, List, [], ◌∷◌, length, take, drop,
  ltb, leb, if◌then◌else◌,
}
use fuzzing_framework.Prelude.Int.{ℤ, pos, negsuc, low_bits}
use fuzzing_framework.Result.{Result, ok, err, ◌>>=◌}
use fuzzing_framework.Protocol.Model.{
  Value, int, Width, w8, w16, w32, w64, other_width, FieldType, uint_type, int_type, Endian, big,
  little, other_endian, Block, Error, not_enough_data, type_error, struct_error,
}

pub record IntegerInfo : Type 0 where
  pub signed : Bool
  pub size : ℕ

abbrev pub integer_info : Bool → ℕ → IntegerInfo
integer_info signed size = record { signed = signed; size = size }

-- `bits` of the table is always `size * 8`. A name that the table lacks gets the format `B`.
unfoldable pub get_integer_info : FieldType → IntegerInfo
get_integer_info (uint_type w8) = integer_info false 1
get_integer_info (uint_type w16) = integer_info false 2
get_integer_info (uint_type w32) = integer_info false 4
get_integer_info (uint_type w64) = integer_info false 8
get_integer_info (int_type w8) = integer_info true 1
get_integer_info (int_type w16) = integer_info true 2
get_integer_info (int_type w32) = integer_info true 4
get_integer_info (int_type w64) = integer_info true 8
get_integer_info _ = integer_info false 1

-- The `k` low bytes of `n`, least significant first, and the other way round.
unfoldable pub to_little : ℕ → ℕ → List ℕ
to_little zero n = []
to_little (suc k) n = n % 256 ∷ to_little k (n / 256)

unfoldable pub to_big : ℕ → ℕ → List ℕ
unfolding to_little
to_big k n = reverse (to_little k n)

-- `value = (value << 8) | byte` over the bytes
unfoldable pub from_big : ℕ → List ℕ → ℕ
from_big value [] = value
from_big value (b ∷ bs) = from_big (bit_or (value * 2 ^ 8) b) bs

unfoldable pub from_little : List ℕ → ℕ
unfolding from_big
from_little bs = from_big 0 (reverse bs)

-- `'>' if endian == 'big' else '<'`
abbrev pub is_big : Endian → Bool
is_big big = true
is_big _ = false

-- `struct.unpack` of an integer format
unfoldable pub unpack : IntegerInfo → Endian → List ℕ → ℤ
unfolding from_big from_little
unpack info endian bs =
    let n = if is_big endian then from_big 0 bs else from_little bs in
    if info.signed
    then (if ltb n (2 ^ (info.size * 8 - 1)) then pos n else negsuc (2 ^ (info.size * 8) - 1 - n))
    else pos n

-- `struct.error` is raised for a number that the format does not hold.
abbrev pub in_range : IntegerInfo → ℤ → Bool
in_range info (pos n) =
    if info.signed then ltb n (2 ^ (info.size * 8 - 1)) else ltb n (2 ^ (info.size * 8))
in_range info (negsuc n) = if info.signed then ltb n (2 ^ (info.size * 8 - 1)) else false

unfoldable pub pack : IntegerInfo → Endian → ℤ → Result Error (List ℕ)
unfolding to_little to_big low_bits
pack info endian v =
    let n = low_bits (info.size * 8) v in
    if in_range info v
    then ok (if is_big endian then to_big info.size n else to_little info.size n)
    else err struct_error

-- `_parse_integer_field`
unfoldable pub parse_integer_field : List ℕ → ℕ → Block → Result Error (ℤ × ℕ)
unfolding get_integer_info unpack
parse_integer_field bs offset block =
    let info = get_integer_info block.type in
    if ltb (length bs) (offset + info.size)
    then err not_enough_data
    else ok (unpack info block.endian (take info.size (drop offset bs)), info.size)

-- A name that starts with `uint` wraps around to the width; any other value is packed as it is.
abbrev pub wrap : FieldType → ℤ → ℤ
wrap (uint_type w) v = pos (low_bits ((get_integer_info (uint_type w)).size * 8) v)
wrap _ v = v

-- `value & max_val` raises TypeError where `struct.pack` raises its own error.
abbrev not_an_integer : FieldType → Error
not_an_integer (uint_type w) = type_error
not_an_integer _ = struct_error

-- `_serialize_integer_field`
unfoldable pub serialize_integer_field : Value → Block → Result Error (List ℕ)
unfolding get_integer_info pack low_bits
serialize_integer_field (int v) block =
    pack (get_integer_info block.type) block.endian (wrap block.type v)
serialize_integer_field _ block = err (not_an_integer block.type)
