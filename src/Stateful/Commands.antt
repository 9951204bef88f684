-- ===== src/Stateful/Commands.antt =====
-- core/engine/protocol_utils.py: the field that names a message's type, and its values.
use text.Mathlib.Text.{◌==◌}
use fuzzing_framework.Prelude.{
  String, Bool, ◌||◌, ◌&&◌, Option, none, some, List, [], ◌∷◌, is_some, if◌then◌else◌,
}
use fuzzing_framework.Prelude.Int.{ℤ}
use fuzzing_framework.Dict.{Dict, put}
use fuzzing_framework.Protocol.Model.{Block, CommandKey, code, text_key}
use fuzzing_framework.Transform.{ReadInt}

-- `field_name in preferred_fields`
abbrev is_preferred : String → Bool
is_preferred name = name == "command" || name == "message_type"

-- The loop of `find_command_field`, with `fallback_field`.
unfoldable pub find_command : List Block → Option String → Option String
find_command [] fallback = fallback
find_command (b ∷ bs) fallback =
    let next : Option String = elim b.values [
      | none ↦ fallback
      | some v ↦ elim fallback [ none ↦ some b.name | some f ↦ some f ]
    ] in
    let rest = find_command bs next in
    if is_some b.values && is_preferred b.name then some b.name else rest

-- `find_command_field`
unfoldable pub find_command_field : List Block → Option String
unfolding find_command
find_command_field blocks = find_command blocks none

-- `mapping[cmd_name] = cmd_value` over the values; a text that is no integer is left out. `read` is
-- `int` of a text.
unfoldable pub command_mapping : ReadInt → List (CommandKey × String) → Dict ℤ → Dict ℤ
command_mapping read [] mapping = mapping
command_mapping read ((code v, name) ∷ rest) mapping =
    command_mapping read rest (put name v mapping)
command_mapping read ((text_key t, name) ∷ rest) mapping =
    command_mapping read rest (elim (read t) [ none ↦ mapping | some v ↦ put name v mapping ])

-- The second loop of `build_message_type_mapping`: the first block of that name with values.
unfoldable pub mapping_of : ReadInt → String → List Block → Option String × Dict ℤ
unfolding command_mapping
mapping_of read field [] = (none, [])
mapping_of read field (b ∷ bs) = elim b.values [
  | none ↦ mapping_of read field bs
  | some values ↦
      if b.name == field
      then (some field, command_mapping read values [])
      else mapping_of read field bs
]

-- `build_message_type_mapping`; an empty name counts as no field.
unfoldable pub build_message_type_mapping : ReadInt → List Block → Option String × Dict ℤ
unfolding find_command_field mapping_of
build_message_type_mapping read blocks = elim (find_command_field blocks) [
  | none ↦ (none, [])
  | some field ↦ if field == "" then (none, []) else mapping_of read field blocks
]
