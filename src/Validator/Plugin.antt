-- ===== src/Validator/Plugin.antt =====
-- `validate_plugin`, `_validate_data_model_structure`, `_validate_seeds`, `_validate_state_model` and
-- `_validate_message_type_seeds`. The parser is that of Protocol.Parse, at the blocks `denormalized` of the
-- data model that `denormalize_data_model_from_json` returns; the seeds are those of that model.
use text.Mathlib.Text.{◌==◌ as same_text}
use fuzzing_framework.Prelude.{
  ℕ, ◌+◌, String, Bool, true, false, not, ◌&&◌, ◌||◌, ◌==◌, Option, none, some, List, [], ◌∷◌, ◌++◌,
  is_in, is_some, if◌then◌else◌,
}
use fuzzing_framework.Prelude.Int.{eq_ℤ}
use fuzzing_framework.Result.{Result, ok, err, ◌>>=◌}
use fuzzing_framework.Dict.{get}
use fuzzing_framework.Protocol.Model.{Block, Value, int, str, CommandKey, code, text_key}
use fuzzing_framework.Protocol.Parse.{Codec, parse}
use fuzzing_framework.Stateful.Session.{Transition}
use fuzzing_framework.Validator.Data.{
  RawBlock, RawDataModel, RawStateModel, Issue, report_if, missing_blocks, missing_name, no_seeds,
  seed_no_bytes, seed_unparsed, types_without_seeds, Raised, attribute_error,
}
use fuzzing_framework.Validator.States.{all_dicts, or_nothing, is_empty, validate_states}
use fuzzing_framework.Validator.Blocks.{validate_blocks, validate_dynamic_fields}
use fuzzing_framework.Validator.Dependencies.{
  validate_dependencies, validate_variable_length_positioning,
}

-- `_validate_data_model_structure`
unfoldable pub validate_data_model_structure : RawDataModel → List Issue
unfolding is_some
validate_data_model_structure m =
    report_if (not (is_some m.blocks)) missing_blocks
    ++ report_if (not (is_some m.name)) missing_name
    ++ report_if (is_empty m.seeds) no_seeds

abbrev value_names : List (CommandKey × String) → List String
value_names [] = []
value_names ((key, name) ∷ values) = name ∷ value_names values

-- `message_types` of `_validate_transitions`: the names of all blocks' values.
unfoldable pub message_types : List RawBlock → Result Raised (List String)
message_types [] = ok []
message_types (b ∷ blocks) = elim b.values [
  | none ↦ message_types blocks
  | some none ↦ err attribute_error
  | some (some values) ↦ do rest ← message_types blocks; ok (value_names values ++ rest)
]

-- A round of the loop of `_validate_seeds`.
unfoldable pub seed_issues : Codec → List Block → ℕ → Option (List ℕ) → List Issue
unfolding parse
seed_issues codec denormalized idx none = seed_no_bytes (idx + 1) ∷ []
seed_issues codec denormalized idx (some seed) = elim (parse codec denormalized seed) [
  | ok parsed ↦ []
  | err e ↦ seed_unparsed (idx + 1) ∷ []
]

unfoldable pub validate_seeds : Codec → List Block → ℕ → List (Option (List ℕ)) → List Issue
unfolding seed_issues
validate_seeds codec denormalized idx [] = []
validate_seeds codec denormalized idx (seed ∷ seeds) =
    seed_issues codec denormalized idx seed ++ validate_seeds codec denormalized (idx + 1) seeds

-- The first block with `values`: `message_type_field` and `value_to_name`.
unfoldable pub first_values :
    List RawBlock → Result Raised (Option String × List (CommandKey × String))
first_values [] = ok (none, [])
first_values (b ∷ blocks) = elim b.values [
  | none ↦ first_values blocks
  | some none ↦ err attribute_error
  | some (some values) ↦ ok (b.name, values)
]

-- `required_message_types`
unfoldable pub required_message_types : List Transition → List String
required_message_types [] = []
required_message_types (t ∷ ts) = elim t.message_type [
  | none ↦ required_message_types ts
  | some name ↦
      let rest = required_message_types ts in if same_text name "" then rest else name ∷ rest
]

abbrev same_bytes : List ℕ → List ℕ → Bool
same_bytes [] [] = true
same_bytes (b ∷ bs) (c ∷ cs) = b == c && same_bytes bs cs
same_bytes _ _ = false

abbrev is_key : Value → CommandKey → Bool
is_key (int v) (code c) = eq_ℤ v c
is_key (str t) (text_key k) = same_bytes t k
is_key _ _ = false

-- `value_to_name.get(cmd_value)`
unfoldable pub name_of_value : Value → List (CommandKey × String) → Option String
name_of_value v [] = none
name_of_value v ((key, name) ∷ values) = if is_key v key then some name else name_of_value v values

-- The name of the message type that a seed covers.
unfoldable pub covered_type :
    Codec → List Block → String → List (CommandKey × String) → Option (List ℕ) → Option String
unfolding parse get name_of_value
covered_type codec denormalized field values none = none
covered_type codec denormalized field values (some seed) = elim (parse codec denormalized seed) [
  | err e ↦ none
  | ok fields ↦ elim (get field fields) [ none ↦ none | some v ↦ name_of_value v values ]
]

-- `covered_message_types`
unfoldable pub covered_message_types :
    Codec → List Block → String → List (CommandKey × String) → List (Option (List ℕ)) → List String
unfolding covered_type
covered_message_types codec denormalized field values [] = []
covered_message_types codec denormalized field values (seed ∷ seeds) =
    let rest = covered_message_types codec denormalized field values seeds in
    elim (covered_type codec denormalized field values seed) [
      | none ↦ rest
      | some name ↦ name ∷ rest
    ]

-- `required_message_types - covered_message_types`
unfoldable pub without : List String → List String → List String
unfolding is_in
without [] covered = []
without (name ∷ required) covered =
    let rest = without required covered in if is_in name covered then rest else name ∷ rest

abbrev missing_issue : List String → List Issue
missing_issue [] = []
missing_issue (name ∷ names) = types_without_seeds (name ∷ names) ∷ []

-- The part of `_validate_message_type_seeds` behind the mapping of the values.
unfoldable pub missing_types :
    Codec
    → List Block
    → List (Option (List ℕ))
    → List (Option Transition)
    → Option String × List (CommandKey × String)
    → Result Raised (List Issue)
unfolding all_dicts required_message_types covered_message_types without
missing_types codec denormalized seeds transitions (none, values) = ok []
missing_types codec denormalized seeds transitions (some field, values) =
    if same_text field "" || is_empty values then ok [] else (do
      ts ← all_dicts transitions
      ok (
          missing_issue (
            without (required_message_types ts)
              (covered_message_types codec denormalized field values seeds))))

-- `_validate_message_type_seeds`. Here and in `_validate_state_model` a block that is no dict raises; so
-- it does at the latest in `_validate_dependencies`.
unfoldable pub validate_message_type_seeds :
    Codec → List Block → RawDataModel → RawStateModel → Result Raised (List Issue)
unfolding all_dicts first_values missing_types
validate_message_type_seeds codec denormalized m s =
    if is_empty m.seeds || is_empty (or_nothing s.transitions) then ok [] else (do
      blocks ← all_dicts (or_nothing m.blocks)
      mapping ← first_values blocks
      missing_types codec denormalized m.seeds (or_nothing s.transitions) mapping)

-- The names that `_validate_transitions` collects where it is called.
abbrev pub declared_types : RawDataModel → RawStateModel → Result Raised (List String)
declared_types m s = elim s.transitions [
  | none ↦ ok []
  | some ts ↦ do blocks ← all_dicts (or_nothing m.blocks); message_types blocks
]

-- `_validate_state_model`
unfoldable pub validate_state_model :
    Codec → List Block → RawDataModel → RawStateModel → Result Raised (List Issue)
unfolding all_dicts message_types validate_states validate_message_type_seeds
validate_state_model codec denormalized m s = do
  types ← declared_types m s
  of_states ← validate_states types s
  of_seeds ← validate_message_type_seeds codec denormalized m s
  ok (of_states ++ of_seeds)

-- `if "blocks" in data_model: self._validate_blocks(data_model["blocks"])`
abbrev pub of_blocks : Option (List (Option RawBlock)) → List Issue
of_blocks none = []
of_blocks (some bs) = validate_blocks bs

-- `validate_plugin`: what is reported, in order.
unfoldable pub validate_plugin :
    Codec → List Block → RawDataModel → RawStateModel → Result Raised (List Issue)
unfolding validate_data_model_structure validate_blocks validate_seeds validate_state_model
    all_dicts validate_dependencies validate_dynamic_fields validate_variable_length_positioning
validate_plugin codec denormalized m s = do
  of_state_model ← validate_state_model codec denormalized m s
  blocks ← all_dicts (or_nothing m.blocks)
  ok (
      validate_data_model_structure m
      ++ of_blocks m.blocks
      ++ validate_seeds codec denormalized 0 m.seeds
      ++ of_state_model
      ++ validate_dependencies blocks
      ++ validate_dynamic_fields blocks
      ++ validate_variable_length_positioning blocks)
