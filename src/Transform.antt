-- ===== src/Transform.antt =====
-- The two copies of the transform operations: `ResponsePlanner._apply_operation` of
-- core/engine/response_planner.py and `_apply_transforms` of core/engine/protocol_parser.py.
pub mod Loops
pub mod Steps
pub mod Agree
pub mod Invert
use fuzzing_framework.Prelude.{
  ℕ, zero, suc, Bool, Option, none, some, List, [], ◌∷◌, ◌^◌, leb, if◌then◌else◌,
}
use fuzzing_framework.Prelude.Int.{
  ℤ, pos, negsuc, ◌+ℤ◌, ◌-ℤ◌, and_ℤ, or_ℤ, xor_ℤ, shl_ℤ, shr_ℤ, mod_ℤ, invert as invert_ℤ, low_bits,
  leb_ℤ,
}
use fuzzing_framework.Result.{Result, ok, err, ◌>>=◌}
use fuzzing_framework.Protocol.Model.{
  Value, int, Operation, add_constant, subtract_constant, xor_constant, and_mask, or_mask,
  shift_left, shift_right, modulo, invert, other_operation, Operand, no_operand, number, numeral,
  Transform, Error, negative_shift,
}

-- `int(op_value, 0)` of a text, which the Python runtime reads; `none` is its ValueError.
abbrev pub ReadInt : Type 0
ReadInt = List ℕ → Option ℤ

-- `value << count`, `value >> count`: a negative count is a ValueError.
unfoldable pub shift_left_by : ℤ → ℤ → Result Error ℤ
unfolding shl_ℤ
shift_left_by v (pos k) = ok (shl_ℤ v k)
shift_left_by v (negsuc k) = err negative_shift

unfoldable pub shift_right_by : ℤ → ℤ → Result Error ℤ
unfolding shr_ℤ
shift_right_by v (pos k) = ok (shr_ℤ v k)
shift_right_by v (negsuc k) = err negative_shift

-- The inferred width: 8, 16 or 32 bits.
abbrev pub inferred_width : ℤ → ℕ
inferred_width v = if leb_ℤ v (pos 0xFF) then 8 else if leb_ℤ v (pos 0xFFFF) then 16 else 32

-- `invert` without a positive bit width
unfoldable pub invert_unsized : ℤ → Option ℤ → ℤ
unfolding and_ℤ low_bits
invert_unsized v (some mask) = and_ℤ (invert_ℤ v) mask
invert_unsized v none = pos (low_bits (inferred_width v) (invert_ℤ v))

-- `invert`: `(~value) & ((1 << bit_width) - 1)` for a positive width
unfoldable pub invert_within : ℤ → Option ℤ → Option ℤ → ℤ
unfolding invert_unsized
invert_within v op_value (some (pos (suc w))) = pos (low_bits (suc w) (invert_ℤ v))
invert_within v op_value _ = invert_unsized v op_value

-- `_apply_operation` once the value is an integer, the operation is there and `op_value` is read as an
-- integer or is `None`.
unfoldable pub operate : Operation → ℤ → Option ℤ → Option ℤ → Result Error ℤ
unfolding ◌+ℤ◌ ◌-ℤ◌ xor_ℤ and_ℤ or_ℤ shift_left_by shift_right_by mod_ℤ invert_within
operate invert v op_value bit_width = ok (invert_within v op_value bit_width)
operate other_operation v op_value bit_width = ok v
operate _ v none bit_width = ok v
operate add_constant v (some c) bit_width = ok (v +ℤ c)
operate subtract_constant v (some c) bit_width = ok (v -ℤ c)
operate xor_constant v (some c) bit_width = ok (xor_ℤ v c)
operate and_mask v (some c) bit_width = ok (and_ℤ v c)
operate or_mask v (some c) bit_width = ok (or_ℤ v c)
operate shift_left v (some c) bit_width = shift_left_by v c
operate shift_right v (some c) bit_width = shift_right_by v c
operate modulo v (some (pos zero)) bit_width = ok v
operate modulo v (some c) bit_width = ok (mod_ℤ v c)

-- One round of the `if`/`elif` ladder of `ProtocolParser._apply_transforms` on an integer, with an
-- `op_value` that is an integer or `None`.
unfoldable pub transform_step : ℤ → Option Operation → Option ℤ → Option ℤ → Result Error ℤ
unfolding ◌+ℤ◌ ◌-ℤ◌ xor_ℤ and_ℤ or_ℤ shift_left_by shift_right_by mod_ℤ low_bits
transform_step v (some add_constant) (some c) bit_width = ok (v +ℤ c)
transform_step v (some subtract_constant) (some c) bit_width = ok (v -ℤ c)
transform_step v (some xor_constant) (some c) bit_width = ok (xor_ℤ v c)
transform_step v (some and_mask) (some c) bit_width = ok (and_ℤ v c)
transform_step v (some or_mask) (some c) bit_width = ok (or_ℤ v c)
transform_step v (some shift_left) (some c) bit_width = shift_left_by v c
transform_step v (some shift_right) (some c) bit_width = shift_right_by v c
transform_step v (some modulo) (some (pos (suc c))) bit_width = ok (mod_ℤ v (pos (suc c)))
transform_step v (some modulo) (some (negsuc c)) bit_width = ok (mod_ℤ v (negsuc c))
transform_step v (some invert) op_value (some (pos (suc w))) =
    ok (pos (low_bits (suc w) (invert_ℤ v)))
transform_step v (some invert) (some mask) bit_width = ok (and_ℤ (invert_ℤ v) mask)
transform_step v (some invert) none bit_width = ok (pos (low_bits (inferred_width v) (invert_ℤ v)))
transform_step v _ op_value bit_width = ok v
