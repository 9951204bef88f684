-- ===== src/Transform/Loops.antt =====
-- The transform loops of core/engine/protocol_parser.py and core/engine/response_planner.py over operands
-- of every type: an operand that is a float makes a float of the value.
use fuzzing_framework.Prelude.{ℕ, suc, Bool, Option, none, some, List, [], ◌∷◌, if◌then◌else◌}
use fuzzing_framework.Prelude.Int.{ℤ, pos, eq_ℤ, invert as invert_ℤ, low_bits}
use fuzzing_framework.Result.{Result, ok, err, ◌>>=◌}
use fuzzing_framework.Protocol.Model.{
  Value, int, Operation, add_constant, subtract_constant, modulo, invert, other_operation, Operand,
  no_operand, number, decimal, numeral, other_operand, Transform, Error, type_error, outside_model,
}
use fuzzing_framework.Transform.{ReadInt, operate, transform_step}

-- A number in the loop: an integer, or a float as its 64 bits.
pub data Number : Type 0 where
  whole : ℤ → Number
  real : ℕ → Number

-- What the Python runtime does: `int(text, 0)`, the test of a float for zero, and `+`, `-` and `%` where a
-- float takes part.
pub record Runtime : Type 0 where
  pub read_int : ReadInt
  pub is_zero : ℕ → Bool
  pub add : Number → Number → Result Error ℕ
  pub subtract : Number → Number → Result Error ℕ
  pub remainder : Number → Number → Result Error ℕ

-- What a transform gives: a value, or a float.
pub data Transformed : Type 0 where
  ordinary : Value → Transformed
  float : ℕ → Transformed

abbrev pub of_number : Number → Transformed
of_number (whole v) = ordinary (int v)
of_number (real x) = float x

-- `op_value` behind `if isinstance(op_value, str): …`: an integer or `None`, a float, or another type.
pub data Argument : Type 0 where
  integral : Option ℤ → Argument
  floating : ℕ → Argument
  unsuitable : Argument

unfoldable pub argument : ReadInt → Operand → Argument
argument read no_operand = integral none
argument read (number c) = integral (some c)
argument read (decimal x) = floating x
argument read (numeral s) = integral (read s)
argument read other_operand = unsuitable

-- `(~value) & mask` for a positive width; `~` and `&` refuse everything else that is no integer.
unfoldable pub invert_number : Number → Option ℤ → Result Error Number
unfolding low_bits
invert_number (whole v) (some (pos (suc w))) = ok (whole (pos (low_bits (suc w) (invert_ℤ v))))
invert_number _ _ = err type_error

abbrev as_real : Result Error ℕ → Result Error Number
as_real r = r >>= λ x. ok (real x)

-- `ResponsePlanner._apply_operation` on an integer with a float as `op_value`
unfoldable pub operate_float : Runtime → Operation → ℤ → ℕ → Option ℤ → Result Error Number
unfolding invert_number
operate_float runtime add_constant v x bit_width = as_real (runtime.add (whole v) (real x))
operate_float runtime subtract_constant v x bit_width =
    as_real (runtime.subtract (whole v) (real x))
operate_float runtime modulo v x bit_width =
    if runtime.is_zero x then ok (whole v) else as_real (runtime.remainder (whole v) (real x))
operate_float runtime invert v x bit_width = invert_number (whole v) bit_width
operate_float runtime other_operation v x bit_width = ok (whole v)
operate_float runtime _ v x bit_width = err type_error

-- `ResponsePlanner._apply_operation` on an integer with an `op_value` that is no number
unfoldable pub operate_unsuitable : Operation → ℤ → Option ℤ → Result Error Number
unfolding invert_number
operate_unsuitable invert v bit_width = invert_number (whole v) bit_width
operate_unsuitable other_operation v bit_width = ok (whole v)
operate_unsuitable _ v bit_width = err type_error

unfoldable pub operate_argument :
    Runtime → Operation → ℤ → Argument → Option ℤ → Result Error Number
unfolding operate operate_float operate_unsuitable
operate_argument runtime op v (integral c) bit_width = do
  v' ← operate op v c bit_width
  ok (whole v')
operate_argument runtime op v (floating x) bit_width = operate_float runtime op v x bit_width
operate_argument runtime op v unsuitable bit_width = operate_unsuitable op v bit_width

-- `ResponsePlanner._apply_operation`: a value that is no integer, a float included, is returned.
unfoldable pub apply_operation :
    Runtime → Transformed → Option Operation → Operand → Option ℤ → Result Error Transformed
unfolding operate_argument argument
apply_operation runtime (ordinary (int v)) (some op) op_value bit_width = do
  n ← operate_argument runtime op v (argument runtime.read_int op_value) bit_width
  ok (of_number n)
apply_operation runtime value _ op_value bit_width = ok value

-- The pipeline of `_resolve_field_value`: `for transform in transforms: …`, where `none` is an entry
-- that is no `dict`.
unfoldable pub pipeline : Runtime → Transformed → List (Option Transform) → Result Error Transformed
unfolding apply_operation
pipeline runtime value [] = ok value
pipeline runtime value (none ∷ ts) = pipeline runtime value ts
pipeline runtime value (some t ∷ ts) = do
  value' ← apply_operation runtime value t.operation t.value t.bit_width
  pipeline runtime value' ts

abbrev is_zero_number : Runtime → Number → Bool
is_zero_number runtime (whole c) = eq_ℤ c (pos 0)
is_zero_number runtime (real x) = runtime.is_zero x

-- A round of `ProtocolParser._apply_transforms` where the value or `op_value` is a float.
unfoldable pub float_step :
    Runtime → Number → Option Operation → Number → Option ℤ → Result Error Number
unfolding invert_number
float_step runtime n (some add_constant) c bit_width = as_real (runtime.add n c)
float_step runtime n (some subtract_constant) c bit_width = as_real (runtime.subtract n c)
float_step runtime n (some modulo) c bit_width =
    if is_zero_number runtime c then ok n else as_real (runtime.remainder n c)
float_step runtime n (some invert) c bit_width = invert_number n bit_width
float_step runtime n (some other_operation) c bit_width = ok n
float_step runtime n none c bit_width = ok n
float_step runtime n _ c bit_width = err type_error

-- A round with an `op_value` that is no number.
unfoldable pub unsuitable_step : Number → Option Operation → Option ℤ → Result Error Number
unfolding invert_number
unsuitable_step n (some invert) bit_width = invert_number n bit_width
unsuitable_step n (some other_operation) bit_width = ok n
unsuitable_step n none bit_width = ok n
unsuitable_step n _ bit_width = err type_error

-- A round on a float with an `op_value` that is `None`.
unfoldable pub bare_step : ℕ → Option Operation → Result Error Number
bare_step x (some invert) = err type_error
bare_step x _ = ok (real x)

-- One round of the `if`/`elif` ladder of `ProtocolParser._apply_transforms`.
unfoldable pub number_step :
    Runtime → Number → Option Operation → Argument → Option ℤ → Result Error Number
unfolding transform_step float_step unsuitable_step bare_step
number_step runtime (whole v) op (integral c) bit_width = do
  v' ← transform_step v op c bit_width
  ok (whole v')
number_step runtime (real x) op (integral (some c)) bit_width =
    float_step runtime (real x) op (whole c) bit_width
number_step runtime (real x) op (integral none) bit_width = bare_step x op
number_step runtime n op (floating y) bit_width = float_step runtime n op (real y) bit_width
number_step runtime n op unsuitable bit_width = unsuitable_step n op bit_width

-- The loop of `_apply_transforms`, which tests the type of the value before it and not again.
unfoldable pub transform_all : Runtime → Number → List (Option Transform) → Result Error Number
unfolding number_step argument
transform_all runtime n [] = ok n
transform_all runtime n (none ∷ ts) = transform_all runtime n ts
transform_all runtime n (some t ∷ ts) = do
  n' ← number_step runtime n t.operation (argument runtime.read_int t.value) t.bit_width
  transform_all runtime n' ts

-- `ProtocolParser._apply_transforms`
unfoldable pub apply_transforms :
    Runtime → Value → List (Option Transform) → Result Error Transformed
unfolding transform_all
apply_transforms runtime (int v) ts = do n ← transform_all runtime (whole v) ts; ok (of_number n)
apply_transforms runtime value ts = ok (ordinary value)

-- The fields of the model hold no float: where the source goes on with one, the model stops.
abbrev pub as_value : Transformed → Result Error Value
as_value (ordinary v) = ok v
as_value (float x) = err outside_model
