-- ===== src/Validator/DataErrors.antt =====
-- The errors of the parser's methods that are errors of the message.
use fuzzing_framework.Prelude.{
  ℕ, ◌+◌, ◌-◌, String, ◌≡◌, refl, Bool, true, false, Option, none, some, List, length, drop, ltb,
  if◌then◌else◌,
}
use fuzzing_framework.Prelude.Int.{pos, negsuc}
use fuzzing_framework.Result.{Result, ok, err, ◌>>=◌, map_err}
use fuzzing_framework.Protocol.Model.{
  Block, Fields, Value, null, int, bytes, str, SizeUnit, Error, not_enough_data, unsupported_type,
  missing_key, codec_error, in_field,
}
use fuzzing_framework.Protocol.Integers.{parse_integer_field}
use fuzzing_framework.Protocol.Parse.{
  Codec, plain, malformed, unknown_encoding, slice, parse_variable, length_value,
  find_length_field_for, parse_bytes_field, parse_string_field, decoded, Decoded,
}

-- The errors that say that the data model itself is wrong.
unfoldable pub is_model_error : Error → Bool
is_model_error unsupported_type = true
is_model_error missing_key = true
is_model_error (in_field name e) = is_model_error e
is_model_error _ = false

-- The only errors are those of the data.
abbrev pub IsDataResult : {A : Type 0} → Result Error A → Type 0
IsDataResult m = (e : Error) → m ≡ err e → is_model_error e ≡ false

pub err-IsDataResult :
    {A : Type 0} (e : Error) → is_model_error e ≡ false → IsDataResult {A = A} (err e)
err-IsDataResult e h e' same = cc

pub ok-IsDataResult : {A : Type 0} (a : A) → IsDataResult (ok a)
ok-IsDataResult a e same = cc

pub if-IsDataResult :
    {A : Type 0} (b : Bool) (m n : Result Error A)
    → IsDataResult m
    → IsDataResult n
    → IsDataResult (if b then m else n)
if-IsDataResult true m n h k = h
if-IsDataResult false m n h k = k

pub >>=-IsDataResult :
    {A B : Type 0} (m : Result Error A) (f : A → Result Error B)
    → IsDataResult m
    → ((a : A) → IsDataResult (f a))
    → IsDataResult (m >>= f)
>>=-IsDataResult (ok a) f h k = k a
>>=-IsDataResult (err e) f h k = err-IsDataResult e (h e refl)

pub map_err-IsDataResult :
    {A : Type 0} (name : String) (m : Result Error A)
    → IsDataResult m
    → IsDataResult (map_err (in_field name) m)
map_err-IsDataResult name (ok a) h = ok-IsDataResult a
map_err-IsDataResult name (err e) h =
    err-IsDataResult (in_field name e) (unfold is_model_error in h e refl)

pub short_of_data : {A : Type 0} → IsDataResult {A = A} (err not_enough_data)
short_of_data = err-IsDataResult not_enough_data (unfold is_model_error in refl)

pub parse_variable-IsDataResult :
    (data' : List ℕ) (offset max_size : ℕ) (v : Option (SizeUnit × Value))
    → IsDataResult (parse_variable data' offset max_size v)
unfolding parse_variable is_model_error
parse_variable-IsDataResult data' offset max_size none = ok-IsDataResult _
parse_variable-IsDataResult data' offset max_size (some (unit, int (pos n))) =
    if-IsDataResult _ _ _ (ok-IsDataResult _) (ok-IsDataResult _)
parse_variable-IsDataResult data' offset max_size (some (unit, int (negsuc n))) =
    err-IsDataResult _ refl
parse_variable-IsDataResult data' offset max_size (some (unit, null)) = err-IsDataResult _ refl
parse_variable-IsDataResult data' offset max_size (some (unit, bytes v)) = err-IsDataResult _ refl
parse_variable-IsDataResult data' offset max_size (some (unit, str v)) = err-IsDataResult _ refl

pub parse_bytes_field-IsDataResult :
    (blocks : List Block) (data' : List ℕ) (offset : ℕ) (block : Block) (parsed : Fields)
    → IsDataResult (parse_bytes_field blocks data' offset block parsed)
unfolding parse_bytes_field
parse_bytes_field-IsDataResult blocks data' offset block parsed = by_size block.size block.max_size
  where
    by_size :
        (size max_size : Option ℕ)
        → IsDataResult {A = List ℕ × ℕ} (elim size [
          | some size ↦
              if ltb (length data') (offset + size)
              then err not_enough_data
              else ok (slice data' offset size)
          | none ↦ elim max_size [
            | some max_size ↦
                parse_variable data' offset max_size
                  (length_value (find_length_field_for blocks block.name) parsed)
            | none ↦ ok (drop offset data', length data' - offset)
          ]
        ])
    by_size (some size) max_size =
        if-IsDataResult (ltb (length data') (offset + size)) (err not_enough_data)
          (ok (slice data' offset size)) short_of_data (ok-IsDataResult (slice data' offset size))
    by_size none (some max_size) =
        parse_variable-IsDataResult data' offset max_size
          (length_value (find_length_field_for blocks block.name) parsed)
    by_size none none = ok-IsDataResult (drop offset data', length data' - offset)

pub decoded-IsDataResult : (d : Decoded) (raw : List ℕ) → IsDataResult (decoded d raw)
decoded-IsDataResult (plain t) raw = ok-IsDataResult t
decoded-IsDataResult malformed raw = ok-IsDataResult raw
decoded-IsDataResult unknown_encoding raw =
    err-IsDataResult codec_error (unfold is_model_error in refl)

pub parse_string_field-IsDataResult :
    (codec : Codec) (blocks : List Block) (data' : List ℕ) (offset : ℕ) (block : Block)
    (parsed : Fields)
    → IsDataResult (parse_string_field codec blocks data' offset block parsed)
unfolding parse_string_field is_model_error
parse_string_field-IsDataResult codec blocks data' offset block parsed =
    >>=-IsDataResult _ _ (parse_bytes_field-IsDataResult blocks data' offset block parsed) (λ r.
      >>=-IsDataResult _ _ (decoded-IsDataResult (codec.decode block.encoding r.0) r.0)
        (λ v. ok-IsDataResult _))

pub parse_integer_field-IsDataResult :
    (data' : List ℕ) (offset : ℕ) (block : Block)
    → IsDataResult (parse_integer_field data' offset block)
unfolding parse_integer_field
parse_integer_field-IsDataResult data' offset block =
    if-IsDataResult _ _ _ short_of_data (ok-IsDataResult _)
