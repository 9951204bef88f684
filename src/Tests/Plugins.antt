-- ===== src/Tests/Plugins.antt =====
-- Plugins: the witnesses of the validator's theorems, and runs.
use mathlib.Core.List.{Memᴰ}
use fuzzing_framework.Prelude.{
  map, ◌&&◌, String, ◌≡◌, ◌≢◌, refl, none, some, List, [], ◌∷◌, true, false, not, is_in, is_some,
  arith, eq_iff, Option,
}
use fuzzing_framework.Prelude.Int.{pos}
use fuzzing_framework.Result.{ok, err}
use fuzzing_framework.Protocol.Model.{
  Block, block, bits_type, uint_type, w8, code, in_field, not_enough_data,
}
use fuzzing_framework.Dict.{put}
use fuzzing_framework.Protocol.Parse.{parse}
use fuzzing_framework.Stateful.Session.{Transition}
use fuzzing_framework.Navigator.{find_path}
use fuzzing_framework.Validator.Data.{
  RawBlock, raw_block, RawDataModel, RawStateModel, Issue, is_valid, attribute_error,
}
use fuzzing_framework.Validator.States.{
  unreachable_states, all_dicts, is_empty, check_unreachable_states,
}
use fuzzing_framework.Validator.Blocks.{validate_blocks}
use fuzzing_framework.Validator.Plugin.{validate_plugin}
use fuzzing_framework.Validator.Unreachable.{is_reported, check_unreachable_states-find_path}
use fuzzing_framework.Validator.Parsable.{IsDenormalized, nothing, kept}
use fuzzing_framework.Validator.DataErrors.{is_model_error}
use fuzzing_framework.Validator.Promise.{
  IsSound, validate_plugin-IsSound, accepted-parse, validate_plugin-raises,
}
use fuzzing_framework.Tests.Samples.{ascii, bit_block, transition}

abbrev command_block : RawBlock
command_block = record (raw_block "command" (uint_type w8)) {
  values = some (some ((code (pos 1), "CONNECT") ∷ (code (pos 2), "DATA") ∷ []));
}

abbrev flags_block : RawBlock
flags_block = record (raw_block "flags" bits_type) { size = some (some (pos 3)) }

abbrev raw_blocks : List (Option RawBlock)
raw_blocks = some command_block ∷ some flags_block ∷ []

abbrev read_blocks : List Block
read_blocks =
    record (block "command" (uint_type w8)) {
      values = some ((code (pos 1), "CONNECT") ∷ (code (pos 2), "DATA") ∷ []);
    }
    ∷ bit_block "flags" 3
    ∷ []

abbrev data_model : RawDataModel
data_model = record {
  name = some "sample";
  blocks = some raw_blocks;
  seeds = some (1 ∷ 0 ∷ []) ∷ some (2 ∷ 224 ∷ []) ∷ [];
}

abbrev steps : List Transition
steps = transition "INIT" "OPEN" "CONNECT" ∷ transition "OPEN" "OPEN" "DATA" ∷ []

abbrev state_model : RawStateModel
state_model = record {
  initial_state = some "INIT";
  states = some ("INIT" ∷ "OPEN" ∷ []);
  transitions =
      some
        (some (transition "INIT" "OPEN" "CONNECT") ∷ some (transition "OPEN" "OPEN" "DATA") ∷ []);
}

no_issue : validate_plugin ascii read_blocks data_model state_model ≡ ok []
unfolding validate_plugin put
no_issue = refl

valid_report : is_valid [] ≡ true
unfolding is_valid
valid_report = refl

validate_plugin-IsSound_example : IsSound ascii read_blocks data_model state_model
validate_plugin-IsSound_example =
    validate_plugin-IsSound ascii read_blocks data_model state_model [] no_issue valid_report

sizes_kept : IsDenormalized raw_blocks read_blocks
sizes_kept = kept refl refl (λ w e. absurd (cc e)) (kept refl refl (λ w e. cc) nothing)

short_message : parse ascii read_blocks (1 ∷ []) ≡ err (in_field "flags" not_enough_data)
unfolding parse put
short_message = refl

accepted-parse_example : is_model_error (in_field "flags" not_enough_data) ≡ false
accepted-parse_example =
    accepted-parse ascii read_blocks data_model state_model [] raw_blocks no_issue valid_report refl
      sizes_kept (1 ∷ []) (in_field "flags" not_enough_data) short_message

-- A block between the others that is no dict.
abbrev broken_blocks : List (Option RawBlock)
broken_blocks = some command_block ∷ none ∷ []

abbrev broken_model : RawDataModel
broken_model = record data_model { blocks = some broken_blocks }

validate_plugin-raises_example :
    (is_valid (validate_blocks broken_blocks) ≡ false)
    × (validate_plugin ascii read_blocks broken_model state_model ≡ err attribute_error)
validate_plugin-raises_example =
    validate_plugin-raises ascii read_blocks broken_model state_model broken_blocks refl
      (Memᴰ.tail (Memᴰ.head refl))

-- A third state, to which nothing leads.
abbrev three_states : List String
three_states = "INIT" ∷ "OPEN" ∷ "LOST" ∷ []

abbrev init : String
init = "INIT"

abbrev lost : String
lost = "LOST"

init_is_named : init ≢ ""
init_is_named e = absurd (ground (arith, eq_iff init ""))

init_is_not_lost : init ≢ lost
init_is_not_lost e = absurd (ground (arith, eq_iff init lost))

lost_is_declared : is_in lost three_states ≡ true
unfolding is_in
lost_is_declared = refl

abbrev lost_model : RawStateModel
lost_model = record state_model {
  initial_state = some init;
  states = some three_states;
  transitions = some (map (λ t. some t) steps);
}

all_dicts-steps : all_dicts (map (λ t. some t) steps) ≡ ok steps
unfolding all_dicts
all_dicts-steps = refl

check_unreachable_states-find_path_example :
    (issues : List Issue) × (check_unreachable_states lost_model ≡ ok issues)
    × (is_reported lost issues ≡ not (is_empty steps) && not (is_some (find_path steps init lost)))
check_unreachable_states-find_path_example =
    check_unreachable_states-find_path init init_is_named steps lost_model lost three_states refl
      refl all_dicts-steps lost_is_declared init_is_not_lost

-- It is named by the warning.
lost_is_warned : unreachable_states (some init) three_states steps ≡ lost ∷ []
unfolding unreachable_states
lost_is_warned = refl
