-- ===== src/Validator/Parsable.antt =====
-- The parser on the blocks of a plugin that the validator accepts.
use fuzzing_framework.Prelude.{
  ℕ, ◌+◌, ◌*◌, ◌/◌, String, ◌≡◌, refl, sym, subst, ◌∙◌, true, Option, none, some, List, [], ◌∷◌,
  arith,
}
use fuzzing_framework.Prelude.Int.{ℤ, pos}
use fuzzing_framework.Result.{ok, err, ◌>>=◌}
use fuzzing_framework.Dict.{put}
use fuzzing_framework.Protocol.Model.{
  Block, Fields, Value, int, bytes, str, FieldType, bits_type, bytes_type, string_type, other_type,
  uint_type, int_type, unsupported_type, missing_key,
}
use fuzzing_framework.Protocol.Integers.{parse_integer_field}
use fuzzing_framework.Protocol.Parse.{
  Codec, extract_bits, parse_bits_field, parse_bytes_field, parse_string_field, parse_field,
  parse_blocks, align,
}
use fuzzing_framework.Validator.Data.{RawBlock}
use fuzzing_framework.Validator.Blocks.{is_valid_type}
use fuzzing_framework.Validator.Accepted.{AreAccepted, accepted}
use fuzzing_framework.Validator.DataErrors.{
  IsDataResult, ok-IsDataResult, if-IsDataResult, >>=-IsDataResult, map_err-IsDataResult,
  short_of_data, parse_bytes_field-IsDataResult, parse_string_field-IsDataResult,
  parse_integer_field-IsDataResult,
}

-- A type that the parser knows, and a width where it takes one.
pub record IsParsable (b : Block) : Type 0 where
  pub known : is_valid_type b.type ≡ true
  pub width : b.type ≡ bits_type → (w : ℕ) × (b.size ≡ some w)

parse_bits_field-IsDataResult :
    (data' : List ℕ) (offset : ℕ) (b : Block) (w : ℕ)
    → b.size ≡ some w
    → IsDataResult (parse_bits_field data' offset b)
unfolding parse_bits_field extract_bits
parse_bits_field-IsDataResult data' offset b w e =
    subst
      (λ s. IsDataResult {A = ℤ × ℕ} (elim s [
        | none ↦ err missing_key
        | some num_bits ↦ extract_bits data' offset num_bits b.bit_order b.endian
      ]))
      (sym e) (if-IsDataResult _ _ _ short_of_data (ok-IsDataResult _))

-- Every block of the list can be parsed.
abbrev AllParsable : List Block → Type 0
AllParsable [] = Unit
AllParsable (b ∷ bs) = IsParsable b × AllParsable bs

module _ (codec : Codec) (blocks : List Block) (data' : List ℕ) where
  parse_field-IsDataResult :
      (bit_offset : ℕ) (b : Block) (parsed : Fields)
      → IsParsable b
      → IsDataResult (parse_field codec blocks data' bit_offset b parsed)
  unfolding parse_field
  parse_field-IsDataResult bit_offset b parsed p =
      by_type b.type p.known (λ is_bits. (p.width is_bits))
    where
      by_type :
          (t : FieldType)
          → is_valid_type t ≡ true
          → (t ≡ bits_type → (w : ℕ) × (b.size ≡ some w))
          → IsDataResult {A = Value × ℕ} (elim t [
            | bits_type ↦ do
              (value, bits_consumed) ← parse_bits_field data' bit_offset b
              ok (int value, bit_offset + bits_consumed)
            | bytes_type ↦ do
              let bit_offset' = align bit_offset
              (value, bytes_consumed) ← parse_bytes_field blocks data' (bit_offset' / 8) b parsed
              ok (bytes value, bit_offset' + bytes_consumed * 8)
            | uint_type w ↦ do
              let bit_offset' = align bit_offset
              (value, bytes_consumed) ← parse_integer_field data' (bit_offset' / 8) b
              ok (int value, bit_offset' + bytes_consumed * 8)
            | int_type w ↦ do
              let bit_offset' = align bit_offset
              (value, bytes_consumed) ← parse_integer_field data' (bit_offset' / 8) b
              ok (int value, bit_offset' + bytes_consumed * 8)
            | string_type ↦ do
              let bit_offset' = align bit_offset
              (value, bytes_consumed) ←
                  parse_string_field codec blocks data' (bit_offset' / 8) b parsed
              ok (str value, bit_offset' + bytes_consumed * 8)
            | other_type ↦ err unsupported_type
          ])
      by_type bits_type known width =
          let (w, sized) = width refl in
          >>=-IsDataResult _ _ (parse_bits_field-IsDataResult data' bit_offset b w sized)
            (λ r. ok-IsDataResult _)
      by_type bytes_type known width =
          >>=-IsDataResult _ _ (parse_bytes_field-IsDataResult blocks data' _ b parsed)
            (λ r. ok-IsDataResult _)
      by_type string_type known width =
          >>=-IsDataResult _ _ (parse_string_field-IsDataResult codec blocks data' _ b parsed)
            (λ r. ok-IsDataResult _)
      by_type (uint_type w) known width =
          >>=-IsDataResult _ _ (parse_integer_field-IsDataResult data' _ b) (λ r. ok-IsDataResult _)
      by_type (int_type w) known width =
          >>=-IsDataResult _ _ (parse_integer_field-IsDataResult data' _ b) (λ r. ok-IsDataResult _)
      by_type other_type known width = absurd (unfold is_valid_type in ground (arith, known))

  pub parse_blocks-IsDataResult :
      (bs : List Block) (bit_offset : ℕ) (fields : Fields)
      → AllParsable bs
      → IsDataResult (parse_blocks codec blocks data' bs bit_offset fields)
  unfolding parse_blocks
  parse_blocks-IsDataResult [] bit_offset fields p = ok-IsDataResult fields
  parse_blocks-IsDataResult (b ∷ bs) bit_offset fields (p, ps) =
      >>=-IsDataResult _ _
        (map_err-IsDataResult b.name _ (parse_field-IsDataResult bit_offset b fields p))
        (λ (r : Value × ℕ). parse_blocks-IsDataResult bs r.1 (put b.name r.0 fields) ps)

-- `denormalize_data_model_from_json` keeps the names and types and the sizes that are there.
pub data IsDenormalized : List (Option RawBlock) → List Block → Type 0 where
  nothing : IsDenormalized [] []
  kept :
      {r : RawBlock} {b : Block} {rs : List (Option RawBlock)} {bs : List Block}
      → r.name ≡ some b.name
      → r.type ≡ some b.type
      → ((w : ℕ) → r.size ≡ some (some (pos w)) → b.size ≡ some w)
      → IsDenormalized rs bs
      → IsDenormalized (some r ∷ rs) (b ∷ bs)

pub denormalized_parsable :
    (names : List String) (rs : List (Option RawBlock)) (bs : List Block)
    → AreAccepted names rs
    → IsDenormalized rs bs
    → AllParsable bs
denormalized_parsable names [] [] a nothing = tt
denormalized_parsable names [] (b ∷ bs) a d = elim d [ ]
denormalized_parsable names (none ∷ rs) bs a d = elim a [ ]
denormalized_parsable names (some r ∷ rs) [] a d = elim d [ ]
denormalized_parsable names (some r ∷ rs) (b ∷ bs)
      (accepted name type named new typed known width later) (kept n t s d) =
    let same : type ≡ b.type = cc in
    (
      record {
        known = subst (λ x. is_valid_type x ≡ true) same known;
        width = λ is_bits. let (w, e, _, _) = width (same ∙ is_bits) in (w, s w e);
      },
      denormalized_parsable (name ∷ names) rs bs later d,
    )
