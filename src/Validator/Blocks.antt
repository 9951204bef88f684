-- ===== src/Validator/Blocks.antt =====
-- `_validate_blocks` and what it calls, `_validate_dynamic_fields`, `_validate_dependencies` and
-- `_validate_variable_length_positioning`.
use fuzzing_framework.Prelude.{
  ℕ, ◌+◌, String, Bool, true, false, not, ◌&&◌, ◌||◌, Option, none, some, List, [], ◌∷◌, ◌++◌,
  is_in, is_some, if◌then◌else◌,
}
use fuzzing_framework.Prelude.Int.{ℤ, pos, leb_ℤ}
use fuzzing_framework.Protocol.Model.{
  FieldType, bits_type, bytes_type, other_type, uint_type, int_type, other_width, BitOrder, Endian,
  other_endian, CommandKey, code, text_key, Operation, other_operation,
}
use fuzzing_framework.Validator.Data.{
  RawBlock, RawGenerator, no_text, known_generator, random_digits, random_malformed,
  unknown_generator, Issue, report_if, no_blocks, block_no_dict, block_unnamed, duplicate_name,
  missing_type, invalid_type, invalid_endian, missing_bit_size, invalid_bit_size, invalid_bit_order,
  invalid_bit_endian, unbounded_bytes, values_no_dict, text_key_of, invalid_size, large_size,
  invalid_max_size, large_max_size, context_no_text, transform_no_list, generate_no_text,
  bad_random_bytes, bad_generator, step_no_dict, bad_operation,
}

-- `field_type in VALID_FIELD_TYPES`
unfoldable pub is_valid_type : FieldType → Bool
is_valid_type other_type = false
is_valid_type (uint_type other_width) = false
is_valid_type (int_type other_width) = false
is_valid_type _ = true

-- `field_type.startswith("uint") or field_type.startswith("int")`
unfoldable pub is_integer_type : FieldType → Bool
is_integer_type (uint_type w) = true
is_integer_type (int_type w) = true
is_integer_type _ = false

-- `endian not in {"big", "little"}`, where the key is there.
abbrev pub is_bad_endian : Option Endian → Bool
is_bad_endian (some other_endian) = true
is_bad_endian _ = false

abbrev pub is_bad_order : Option (Option BitOrder) → Bool
is_bad_order (some none) = true
is_bad_order _ = false

-- The width of a bit field.
unfoldable pub bit_size_issues : String → Option (Option ℤ) → List Issue
bit_size_issues name none = missing_bit_size name ∷ []
bit_size_issues name (some none) = invalid_bit_size name ∷ []
bit_size_issues name (some (some size)) =
    report_if (not (leb_ℤ (pos 1) size) || not (leb_ℤ size (pos 64))) (invalid_bit_size name)

-- The loop over the keys of `values`.
unfoldable pub key_issues : String → List (CommandKey × String) → List Issue
key_issues name [] = []
key_issues name ((code v, n) ∷ values) = key_issues name values
key_issues name ((text_key t, n) ∷ values) = text_key_of name ∷ key_issues name values

unfoldable pub values_issues :
    String → FieldType → Option (Option (List (CommandKey × String))) → List Issue
unfolding key_issues is_integer_type
values_issues name type none = []
values_issues name type (some none) = values_no_dict name ∷ []
values_issues name type (some (some values)) =
    if is_integer_type type then key_issues name values else []

abbrev pub bits_issues : FieldType → String → RawBlock → List Issue
bits_issues bits_type name b =
    bit_size_issues name b.size
    ++ report_if (is_bad_order b.bit_order) (invalid_bit_order name)
    ++ report_if (is_bad_endian b.endian) (invalid_bit_endian name)
bits_issues _ name b = []

abbrev pub bytes_issues : FieldType → String → RawBlock → List Issue
bytes_issues bytes_type name b =
    report_if (not (is_some b.size) && not (is_some b.max_size)) (unbounded_bytes name)
bytes_issues _ name b = []

-- `_validate_block_type_specific`
unfoldable pub validate_block_type_specific : RawBlock → String → FieldType → List Issue
unfolding bit_size_issues values_issues is_some
validate_block_type_specific b name type =
    bits_issues type name b ++ bytes_issues type name b ++ values_issues name type b.values

-- `_validate_block_size` for one of the two keys: not an integer or negative, or above the limit.
abbrev size_issues : ℕ → Issue → Issue → Option (Option ℤ) → List Issue
size_issues limit invalid large none = []
size_issues limit invalid large (some none) = invalid ∷ []
size_issues limit invalid large (some (some size)) =
    if not (leb_ℤ (pos 0) size)
    then invalid ∷ []
    else report_if (not (leb_ℤ size (pos limit))) large

-- `_validate_block_size`
unfoldable pub validate_block_size : RawBlock → String → List Issue
validate_block_size b name =
    size_issues 65536 (invalid_size name) (large_size name) b.size
    ++ size_issues 1048576 (invalid_max_size name) (large_max_size name) b.max_size

-- The rest of a round of `_validate_blocks`, from the `type` on.
unfoldable pub typed_issues : RawBlock → String → Option FieldType → List Issue
unfolding is_valid_type is_integer_type validate_block_type_specific validate_block_size
typed_issues b name none = missing_type name ∷ []
typed_issues b name (some type) =
    report_if (not (is_valid_type type)) (invalid_type name)
    ++ validate_block_type_specific b name type
    ++ validate_block_size b name
    ++ report_if (is_integer_type type && is_bad_endian b.endian) (invalid_endian name)

-- A round of `_validate_blocks` at a block with a name.
unfoldable pub named_issues : List String → RawBlock → String → List Issue
unfolding typed_issues is_in
named_issues block_names b name =
    report_if (is_in name block_names) (duplicate_name name) ++ typed_issues b name b.type

-- The loop of `_validate_blocks`: `idx` and `block_names` are passed along.
unfoldable pub block_issues : ℕ → List String → List (Option RawBlock) → List Issue
unfolding named_issues
block_issues idx block_names [] = []
block_issues idx block_names (none ∷ blocks) =
    block_no_dict idx ∷ block_issues (idx + 1) block_names blocks
block_issues idx block_names (some b ∷ blocks) = elim b.name [
  | none ↦ block_unnamed idx ∷ block_issues (idx + 1) block_names blocks
  | some name ↦
      named_issues block_names b name ++ block_issues (idx + 1) (name ∷ block_names) blocks
]

-- `_validate_blocks`
unfoldable pub validate_blocks : List (Option RawBlock) → List Issue
unfolding block_issues
validate_blocks [] = no_blocks ∷ []
validate_blocks (b ∷ blocks) = block_issues 0 [] (b ∷ blocks)

-- `block.get("name", "<unnamed>")`
abbrev shown_name : RawBlock → String
shown_name b = elim b.name [ none ↦ "<unnamed>" | some name ↦ name ]

-- `operation not in VALID_TRANSFORM_OPS`
abbrev is_bad_operation : Option Operation → Bool
is_bad_operation none = true
is_bad_operation (some other_operation) = true
is_bad_operation (some _) = false

unfoldable pub step_issues : String → ℕ → List (Option (Option Operation)) → List Issue
step_issues name idx [] = []
step_issues name idx (none ∷ steps) = step_no_dict name idx ∷ step_issues name (idx + 1) steps
step_issues name idx (some operation ∷ steps) =
    report_if (is_bad_operation operation) (bad_operation name idx)
    ++ step_issues name (idx + 1) steps

abbrev transform_issues : String → Option (Option (List (Option (Option Operation)))) → List Issue
transform_issues name none = []
transform_issues name (some none) = transform_no_list name ∷ []
transform_issues name (some (some steps)) = step_issues name 0 steps

abbrev context_issues : String → Option (Option String) → List Issue
context_issues name (some none) = context_no_text name ∷ []
context_issues name _ = []

abbrev generate_issues : String → Option RawGenerator → List Issue
generate_issues name none = []
generate_issues name (some no_text) = generate_no_text name ∷ []
generate_issues name (some known_generator) = []
generate_issues name (some random_digits) = []
generate_issues name (some random_malformed) = bad_random_bytes name ∷ []
generate_issues name (some unknown_generator) = bad_generator name ∷ []

-- `_validate_dynamic_fields`, on blocks that are all dicts.
unfoldable pub validate_dynamic_fields : List RawBlock → List Issue
unfolding step_issues
validate_dynamic_fields [] = []
validate_dynamic_fields (b ∷ blocks) =
    context_issues (shown_name b) b.from_context
    ++ transform_issues (shown_name b) b.transform
    ++ generate_issues (shown_name b) b.generate
    ++ validate_dynamic_fields blocks
