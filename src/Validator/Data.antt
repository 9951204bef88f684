-- ===== src/Validator/Data.antt =====
-- What a plugin hands to the validator, before it is known to fit the data model, and the issues that
-- are reported. Where an `Option` stands twice, the outer one says whether the key is there and the
-- inner one whether its value has the type that is expected.
use fuzzing_framework.Prelude.{
  ℕ, String, Bool, true, false, Option, none, some, List, [], ◌∷◌, if◌then◌else◌,
}
use fuzzing_framework.Prelude.Int.{ℤ}
use fuzzing_framework.Protocol.Model.{FieldType, BitOrder, Endian, CommandKey, Operation}
use fuzzing_framework.Stateful.Session.{Transition}

-- `size_of`: a text, a list in which `none` is no text, or a value of another type.
pub data RawSizeOf : Type 0 where
  text_target : String → RawSizeOf
  listed : List (Option String) → RawSizeOf
  no_reference : RawSizeOf

-- `generate`: no text, a text of VALID_GENERATORS, `random_bytes:` with digits or without, or another
-- text.
pub data RawGenerator : Type 0 where
  no_text known_generator random_digits random_malformed unknown_generator : RawGenerator

pub record RawBlock : Type 0 where
  pub name : Option String
  pub type : Option FieldType
  pub size : Option (Option ℤ)
  pub max_size : Option (Option ℤ)
  pub bit_order : Option (Option BitOrder)
  pub endian : Option Endian
  pub values : Option (Option (List (CommandKey × String)))
  pub is_size_field : Bool
  pub size_of : Option RawSizeOf
  pub mutable : Bool
  pub from_context : Option (Option String)
  pub transform : Option (Option (List (Option (Option Operation))))
  pub generate : Option RawGenerator

-- A block without any key but these two.
abbrev pub raw_block : String → FieldType → RawBlock
raw_block name type = record {
  name = some name;
  type = some type;
  size = none;
  max_size = none;
  bit_order = none;
  endian = none;
  values = none;
  is_size_field = false;
  size_of = none;
  mutable = true;
  from_context = none;
  transform = none;
  generate = none;
}

-- `none` in a list of blocks or transitions is an entry that is no `dict`, in the seeds one that is not
-- `bytes`.
pub record RawDataModel : Type 0 where
  pub name : Option String
  pub blocks : Option (List (Option RawBlock))
  pub seeds : List (Option (List ℕ))

pub record RawStateModel : Type 0 where
  pub initial_state : Option String
  pub states : Option (List String)
  pub transitions : Option (List (Option Transition))

-- The issues, below the texts of their messages.
pub data Issue : Type 0 where
  missing_blocks missing_name no_seeds no_blocks : Issue
  block_no_dict block_unnamed : ℕ → Issue
  duplicate_name missing_type invalid_type invalid_endian : String → Issue
  missing_bit_size invalid_bit_size invalid_bit_order invalid_bit_endian : String → Issue
  unbounded_bytes values_no_dict text_key_of : String → Issue
  invalid_size large_size invalid_max_size large_max_size : String → Issue
  context_no_text transform_no_list generate_no_text bad_random_bytes bad_generator : String → Issue
  step_no_dict bad_operation : String → ℕ → Issue
  size_of_no_reference size_of_no_text circular_size_of : String → Issue
  unknown_target : String → String → Issue
  all_immutable : Issue
  variable_in_the_middle : String → Issue
  seed_no_bytes seed_unparsed : ℕ → Issue
  missing_initial missing_states : Issue
  transition_no_dict missing_from missing_to unknown_type : ℕ → Issue
  undefined_from undefined_to : ℕ → String → Issue
  unreachable : List String → Issue
  types_without_seeds : List String → Issue

-- `add_warning` reports these, `add_error` the others.
unfoldable pub is_error : Issue → Bool
is_error missing_name = false
is_error no_seeds = false
is_error (unbounded_bytes k) = false
is_error (large_size k) = false
is_error (large_max_size k) = false
is_error all_immutable = false
is_error (variable_in_the_middle k) = false
is_error missing_initial = false
is_error missing_states = false
is_error (unknown_type i) = false
is_error (unreachable s) = false
is_error (types_without_seeds t) = false
is_error _ = true

-- `len(self.errors) == 0`
unfoldable pub is_valid : List Issue → Bool
unfolding is_error
is_valid [] = true
is_valid (i ∷ issues) = if is_error i then false else is_valid issues

-- What the validator raises where it takes an entry or `values` for a `dict` that is none.
pub data Raised : Type 0 where
  attribute_error : Raised

-- An issue where a test holds.
abbrev pub report_if : Bool → Issue → List Issue
report_if true i = i ∷ []
report_if false i = []
