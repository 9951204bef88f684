-- ===== src/Validator/Accepted.antt =====
-- What holds of the blocks of a plugin that the validator accepts.
use fuzzing_framework.Prelude.{
  ℕ, ◌+◌, ◌≤◌, String, ◌≡◌, refl, subst, Bool, true, false, not, ◌&&◌, Option, none, some, List, [],
  ◌∷◌, ◌++◌, is_in, arith,
}
use fuzzing_framework.Prelude.Int.{ℤ, pos, negsuc}
use fuzzing_framework.Protocol.Model.{FieldType, bits_type}
use fuzzing_framework.Validator.Data.{
  invalid_bit_order, invalid_bit_endian, invalid_endian, RawBlock, Issue, is_error, is_valid,
  report_if, block_unnamed, duplicate_name, invalid_type,
}
use fuzzing_framework.Validator.Blocks.{
  is_valid_type, bit_size_issues, validate_block_type_specific, validate_block_size, typed_issues,
  named_issues, block_issues, bits_issues, bytes_issues, values_issues, is_bad_order, is_bad_endian,
  is_integer_type,
}

pub is_valid-append : (is js : List Issue) → is_valid (is ++ js) ≡ (is_valid is && is_valid js)
unfolding is_valid
is_valid-append [] js = refl
is_valid-append (i ∷ is) js = ground (arith, is_valid-append is js)

pub valid_left : (is js : List Issue) → is_valid (is ++ js) ≡ true → is_valid is ≡ true
valid_left is js h = ground (arith, is_valid-append is js)

pub valid_right : (is js : List Issue) → is_valid (is ++ js) ≡ true → is_valid js ≡ true
valid_right is js h = ground (arith, is_valid-append is js)

-- A test that reports an error fails where no error is reported.
pub not_reported :
    (b : Bool) (i : Issue) → is_error i ≡ true → is_valid (report_if b i) ≡ true → b ≡ false
unfolding is_valid
not_reported true i e h = cc
not_reported false i e h = refl

-- The widths of a bit field that are accepted.
abbrev pub IsBitWidth : Option (Option ℤ) → Type 0
IsBitWidth size = (w : ℕ) × (size ≡ some (some (pos w))) × (1 ≤ w) × (w ≤ 64)

bit_size_issues-IsBitWidth :
    (name : String) (size : Option (Option ℤ))
    → is_valid (bit_size_issues name size) ≡ true
    → IsBitWidth size
unfolding bit_size_issues is_valid is_error
bit_size_issues-IsBitWidth name none h = cc
bit_size_issues-IsBitWidth name (some none) h = cc
bit_size_issues-IsBitWidth name (some (some (pos w))) h = (w, refl, ground arith, ground arith)
bit_size_issues-IsBitWidth name (some (some (negsuc w))) h = absurd (ground arith)

-- Blocks with names that are none of `names` and pairwise different, types of VALID_FIELD_TYPES, and
-- widths from 1 to 64 where they are bit fields.
pub data AreAccepted : List String → List (Option RawBlock) → Type 0 where
  none_left : {names : List String} → AreAccepted names []
  accepted :
      {names : List String} {b : RawBlock} {blocks : List (Option RawBlock)} (name : String)
      (type : FieldType)
      → b.name ≡ some name
      → is_in name names ≡ false
      → b.type ≡ some type
      → is_valid_type type ≡ true
      → (type ≡ bits_type → IsBitWidth b.size)
      → AreAccepted (name ∷ names) blocks
      → AreAccepted names (some b ∷ blocks)

bits_accepted :
    (b : RawBlock) (name : String) (type : FieldType)
    → is_valid (validate_block_type_specific b name type) ≡ true
    → type ≡ bits_type
    → IsBitWidth b.size
unfolding validate_block_type_specific
bits_accepted b name type h is_bits =
    let of_type : is_valid (bits_issues type name b) ≡ true =
      valid_left (bits_issues type name b) (bytes_issues type name b) (
        valid_left (bits_issues type name b ++ bytes_issues type name b)
          (values_issues name type b.values) h) in
    let at_bits : is_valid (bits_issues bits_type name b) ≡ true =
      subst (λ (t : FieldType). is_valid (bits_issues t name b) ≡ true) is_bits of_type in
    let order = report_if (is_bad_order b.bit_order) (invalid_bit_order name) in
    let endian = report_if (is_bad_endian b.endian) (invalid_bit_endian name) in
    bit_size_issues-IsBitWidth name b.size (
      valid_left (bit_size_issues name b.size) order
        (valid_left (bit_size_issues name b.size ++ order) endian at_bits))

typed_accepted :
    (b : RawBlock) (name : String) (t : Option FieldType)
    → is_valid (typed_issues b name t) ≡ true
    → (type : FieldType) × (t ≡ some type)
      × (is_valid_type type ≡ true)
      × (type ≡ bits_type → IsBitWidth b.size)
unfolding typed_issues
typed_accepted b name none h = absurd (unfold is_valid is_error in cc h)
typed_accepted b name (some type) h =
    let invalid = report_if (not (is_valid_type type)) (invalid_type name) in
    let specific = validate_block_type_specific b name type in
    let sizes = validate_block_size b name in
    let endian = report_if (is_integer_type type && is_bad_endian b.endian) (invalid_endian name) in
    let first =
      valid_left (invalid ++ specific) sizes (valid_left (invalid ++ specific ++ sizes) endian h) in
    let known =
      not_reported (not (is_valid_type type)) (invalid_type name) (unfold is_error in refl)
        (valid_left invalid specific first) in
    (
      type,
      refl,
      ground (arith, known),
      bits_accepted b name type (valid_right invalid specific first),
    )

pub block_issues-AreAccepted :
    (idx : ℕ) (names : List String) (blocks : List (Option RawBlock))
    → is_valid (block_issues idx names blocks) ≡ true
    → AreAccepted names blocks
unfolding block_issues is_error
block_issues-AreAccepted idx names [] h = none_left
block_issues-AreAccepted idx names (none ∷ blocks) h = absurd (unfold is_valid is_error in cc h)
block_issues-AreAccepted idx names (some b ∷ blocks) h =
    by_name (λ ns k. block_issues-AreAccepted (idx + 1) ns blocks k) b.name refl h
  where
    by_name :
        ((ns : List String)
          → is_valid (block_issues (idx + 1) ns blocks) ≡ true
          → AreAccepted ns blocks)
        → (n : Option String) → b.name ≡ n
        → is_valid (elim n [
          | none ↦ block_unnamed idx ∷ block_issues (idx + 1) names blocks
          | some name ↦ named_issues names b name ++ block_issues (idx + 1) (name ∷ names) blocks
        ])
          ≡ true
        → AreAccepted names (some b ∷ blocks)
    by_name later none e h = absurd (unfold is_valid is_error in cc h)
    by_name later (some name) e h =
        let first : is_valid (named_issues names b name) ≡ true = valid_left _ _ h in
        let (type, typed, known, width) =
          typed_accepted b name b.type (unfold named_issues in valid_right _ _ first) in
        accepted name type e
          (not_reported (is_in name names) (duplicate_name name) refl
            (unfold named_issues in valid_left _ _ first))
          typed known width (later (name ∷ names) (valid_right _ _ h))
