-- ===== src/Transform/Agree.antt =====
-- The parser's transforms and the response planner's, compared.
use fuzzing_framework.Prelude.{
  ℕ, ◌≡◌, refl, sym, ap, ◌∙◌, false, Option, none, some, List, [], ◌∷◌, arith,
}
use fuzzing_framework.Prelude.Int.{ℤ}
use fuzzing_framework.Result.{Result, ok, err, ◌>>=◌}
use fuzzing_framework.Protocol.Model.{
  Value, null, int, bytes, str, Operation, add_constant, Operand, decimal, Transform, Error,
}
use fuzzing_framework.Transform.Loops.{
  Number, whole, real, Runtime, Transformed, ordinary, of_number, Argument, argument,
  apply_operation, pipeline, number_step, transform_all, apply_transforms,
}
use fuzzing_framework.Transform.Steps.{
  is_float, IsWhole, argument-IsIntegral, number_step-IsWhole, operate_argument-eq-number_step,
  no_step,
}

-- The addition of a float.
abbrev pub adding : ℕ → Transform
adding x = record { operation = some add_constant; value = decimal x; bit_width = none }

-- No value but that of the last transform is a float.
abbrev pub AreFloatlessBeforeLast : List (Option Transform) → Type 0
AreFloatlessBeforeLast [] = Unit
AreFloatlessBeforeLast (none ∷ ts) = AreFloatlessBeforeLast ts
AreFloatlessBeforeLast (some t ∷ []) = Unit
AreFloatlessBeforeLast (some t ∷ u ∷ ts) =
    (is_float t.value ≡ false) × AreFloatlessBeforeLast (u ∷ ts)

module _ (runtime : Runtime) where
  -- a round of the parser on a transform
  abbrev step_of : Number → Transform → Result Error Number
  step_of n t = number_step runtime n t.operation (argument runtime.read_int t.value) t.bit_width

  -- one step of the planner on an integer
  apply_operation-int :
      (v : ℤ) (t : Transform)
      → apply_operation runtime (ordinary (int v)) t.operation t.value t.bit_width
        ≡ (do n ← step_of (whole v) t; ok (of_number n))
  unfolding apply_operation
  apply_operation-int v t = by_operation t.operation
    where
      a : Argument
      a = argument runtime.read_int t.value

      by_operation :
          (o : Option Operation)
          → apply_operation runtime (ordinary (int v)) o t.value t.bit_width
            ≡ (do n ← number_step runtime (whole v) o a t.bit_width; ok (of_number n))
      by_operation none = sym (
          ap (λ (r : Result Error Number). r >>= λ n. ok (of_number n))
            (no_step runtime v a t.bit_width))
      by_operation (some op) =
          ap (λ (r : Result Error Number). r >>= λ n. ok (of_number n))
            (operate_argument-eq-number_step runtime op v a t.bit_width)

  -- the rest of the loop, after a step that returned an integer or raised
  continue :
      (ts : List (Option Transform)) (m : Result Error Number)
      → IsWhole m
      → ((v : ℤ)
          → pipeline runtime (ordinary (int v)) ts
            ≡ (do n ← transform_all runtime (whole v) ts; ok (of_number n)))
      → ((m >>= λ n. ok (of_number n)) >>= λ value. pipeline runtime value ts)
        ≡ ((m >>= λ n. transform_all runtime n ts) >>= λ n. ok (of_number n))
  continue ts (ok (whole v)) h rest = rest v
  continue ts (ok (real x)) (ok v, e) rest = absurd (cc e)
  continue ts (ok (real x)) (err raised, e) rest = absurd (cc e)
  continue ts (err raised) h rest = refl

  -- the end of the loop, after a step that returned any number or raised
  end :
      (m : Result Error Number)
      → ((m >>= λ n. ok (of_number n)) >>= λ value. pipeline runtime value [])
        ≡ ((m >>= λ n. transform_all runtime n []) >>= λ n. ok (of_number n))
  unfolding pipeline transform_all
  end (ok n) = refl
  end (err raised) = refl

  pipeline-int :
      (v : ℤ) (ts : List (Option Transform))
      → AreFloatlessBeforeLast ts
      → pipeline runtime (ordinary (int v)) ts
        ≡ (do n ← transform_all runtime (whole v) ts; ok (of_number n))
  unfolding pipeline transform_all
  pipeline-int v [] h = refl
  pipeline-int v (none ∷ ts) h = pipeline-int v ts h
  pipeline-int v (some t ∷ []) h =
      ap (λ m. m >>= λ value. pipeline runtime value []) (apply_operation-int v t)
      ∙ end (step_of (whole v) t)
  pipeline-int v (some t ∷ u ∷ ts) h =
      let integral_argument = argument-IsIntegral runtime.read_int t.value h.0 in
      ap (λ m. m >>= λ value. pipeline runtime value (u ∷ ts)) (apply_operation-int v t)
      ∙ continue (u ∷ ts) (step_of (whole v) t)
          (number_step-IsWhole runtime v t.operation (argument runtime.read_int t.value) t.bit_width
            integral_argument)
          (λ w. pipeline-int w (u ∷ ts) h.1)

  -- What is no integer stays as it is.
  pipeline-fixed :
      (value : Transformed)
      → ((o : Option Operation) (c : Operand) (w : Option ℤ)
          → apply_operation runtime value o c w ≡ ok value)
      → (ts : List (Option Transform)) → pipeline runtime value ts ≡ ok value
  unfolding pipeline
  pipeline-fixed value h [] = refl
  pipeline-fixed value h (none ∷ ts) = pipeline-fixed value h ts
  pipeline-fixed value h (some t ∷ ts) =
      rw (h t.operation t.value t.bit_width) (pipeline-fixed value h ts)

  -- On every value (`None`, an integer, bytes or a text) and every list of transforms in which no `value`
  -- but the last one's is a float, entries that are no dict and operands of other types included, the
  -- parser's `_apply_transforms` and the planner's pipeline give the same value or raise the same error.
  -- (A `bit_width` is an integer or absent.)
  pub apply_transforms-eq-pipeline :
      (value : Value) (ts : List (Option Transform))
      → AreFloatlessBeforeLast ts
      → apply_transforms runtime value ts ≡ pipeline runtime (ordinary value) ts
  unfolding apply_transforms apply_operation
  apply_transforms-eq-pipeline (int v) ts h = sym (pipeline-int v ts h)
  apply_transforms-eq-pipeline null ts h =
      sym (pipeline-fixed (ordinary null) (λ o c w. ground arith) ts)
  apply_transforms-eq-pipeline (bytes b) ts h =
      sym (pipeline-fixed (ordinary (bytes b)) (λ o c w. ground arith) ts)
  apply_transforms-eq-pipeline (str b) ts h =
      sym (pipeline-fixed (ordinary (str b)) (λ o c w. ground arith) ts)
