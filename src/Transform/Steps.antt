-- ===== src/Transform/Steps.antt =====
-- One step of the parser's transforms and of the response planner's, compared.
use fuzzing_framework.Prelude.{
  ℕ, zero, suc, ◌≡◌, refl, ap, Bool, true, false, Option, none, some, arith,
}
use fuzzing_framework.Prelude.Int.{ℤ, pos, negsuc, invert as invert_ℤ, low_bits}
use fuzzing_framework.Result.{Result, ok, err, ◌>>=◌}
use fuzzing_framework.Protocol.Model.{
  Operation, add_constant, subtract_constant, xor_constant, and_mask, or_mask, shift_left,
  shift_right, modulo, invert, other_operation, Operand, no_operand, number, decimal, numeral,
  other_operand, Error, type_error,
}
use fuzzing_framework.Transform.{ReadInt, operate, transform_step}
use fuzzing_framework.Transform.Loops.{
  Number, whole, real, Runtime, Argument, integral, floating, unsuitable, argument, invert_number,
  operate_float, float_step, operate_unsuitable, unsuitable_step, operate_argument, number_step,
}

operate-eq-transform_step :
    (op : Operation) (v : ℤ) (c w : Option ℤ) → operate op v c w ≡ transform_step v (some op) c w
unfolding operate transform_step
operate-eq-transform_step other_operation v c w = refl
operate-eq-transform_step _ v c w = ground arith

no_operation : (v : ℤ) (c w : Option ℤ) → transform_step v none c w ≡ ok v
unfolding transform_step
no_operation v c w = ground arith

-- The value of a transform is a float.
abbrev pub is_float : Operand → Bool
is_float (decimal x) = true
is_float _ = false

-- An argument that is no float.
abbrev pub IsIntegral : Argument → Type 0
IsIntegral (floating x) = ⊥
IsIntegral _ = Unit

pub argument-IsIntegral :
    (read : ReadInt) (o : Operand) → is_float o ≡ false → IsIntegral (argument read o)
unfolding argument
argument-IsIntegral read no_operand h = tt
argument-IsIntegral read (number c) h = tt
argument-IsIntegral read (decimal x) h = absurd (cc h)
argument-IsIntegral read (numeral s) h = tt
argument-IsIntegral read other_operand h = tt

-- The step returns an integer, if it returns.
abbrev pub IsWhole : Result Error Number → Type 0
IsWhole m = (r : Result Error ℤ) × (m ≡ (do v ← r; ok (whole v)))

invert_number-IsWhole : (v : ℤ) (w : Option ℤ) → IsWhole (invert_number (whole v) w)
unfolding invert_number
invert_number-IsWhole v (some (pos (suc w))) = (ok (pos (low_bits (suc w) (invert_ℤ v))), refl)
invert_number-IsWhole v (some (pos zero)) = (err type_error, refl)
invert_number-IsWhole v (some (negsuc w)) = (err type_error, refl)
invert_number-IsWhole v none = (err type_error, refl)

unsuitable_step-IsWhole :
    (v : ℤ) (op : Option Operation) (w : Option ℤ) → IsWhole (unsuitable_step (whole v) op w)
unfolding unsuitable_step
unsuitable_step-IsWhole v none w = (ok v, refl)
unsuitable_step-IsWhole v (some invert) w = invert_number-IsWhole v w
unsuitable_step-IsWhole v (some other_operation) w = (ok v, refl)
unsuitable_step-IsWhole v (some add_constant) w = (err type_error, refl)
unsuitable_step-IsWhole v (some subtract_constant) w = (err type_error, refl)
unsuitable_step-IsWhole v (some xor_constant) w = (err type_error, refl)
unsuitable_step-IsWhole v (some and_mask) w = (err type_error, refl)
unsuitable_step-IsWhole v (some or_mask) w = (err type_error, refl)
unsuitable_step-IsWhole v (some shift_left) w = (err type_error, refl)
unsuitable_step-IsWhole v (some shift_right) w = (err type_error, refl)
unsuitable_step-IsWhole v (some modulo) w = (err type_error, refl)

module _ (runtime : Runtime) where
  pub number_step-IsWhole :
      (v : ℤ) (op : Option Operation) (a : Argument) (w : Option ℤ)
      → IsIntegral a
      → IsWhole (number_step runtime (whole v) op a w)
  unfolding number_step
  number_step-IsWhole v op (integral c) w h = (transform_step v op c w, refl)
  number_step-IsWhole v op (floating x) w h = absurd h
  number_step-IsWhole v op unsuitable w h = unsuitable_step-IsWhole v op w

  operate_float-eq-float_step :
      (op : Operation) (v : ℤ) (x : ℕ) (w : Option ℤ)
      → operate_float runtime op v x w ≡ float_step runtime (whole v) (some op) (real x) w
  unfolding operate_float float_step
  operate_float-eq-float_step other_operation v x w = refl
  operate_float-eq-float_step _ v x w = ground arith

  operate_unsuitable-eq-unsuitable_step :
      (op : Operation) (v : ℤ) (w : Option ℤ)
      → operate_unsuitable op v w ≡ unsuitable_step (whole v) (some op) w
  unfolding operate_unsuitable unsuitable_step
  operate_unsuitable-eq-unsuitable_step other_operation v w = refl
  operate_unsuitable-eq-unsuitable_step _ v w = ground arith

  pub operate_argument-eq-number_step :
      (op : Operation) (v : ℤ) (a : Argument) (w : Option ℤ)
      → operate_argument runtime op v a w ≡ number_step runtime (whole v) (some op) a w
  unfolding operate_argument number_step
  operate_argument-eq-number_step op v (integral c) w =
      ap (λ (r : Result Error ℤ). r >>= λ u. ok (whole u)) (operate-eq-transform_step op v c w)
  operate_argument-eq-number_step op v (floating x) w = operate_float-eq-float_step op v x w
  operate_argument-eq-number_step op v unsuitable w = operate_unsuitable-eq-unsuitable_step op v w

  pub no_step :
      (v : ℤ) (a : Argument) (w : Option ℤ) → number_step runtime (whole v) none a w ≡ ok (whole v)
  unfolding number_step float_step unsuitable_step
  no_step v (integral c) w =
      ap (λ (r : Result Error ℤ). r >>= λ u. ok (whole u)) (no_operation v c w)
  no_step v (floating x) w = refl
  no_step v unsuitable w = refl
