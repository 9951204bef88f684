-- ===== src/Validator/Dependencies.antt =====
-- `_validate_dependencies` and `_validate_variable_length_positioning`, on blocks that are all dicts.
use text.Mathlib.Text.{◌==◌}
use fuzzing_framework.Prelude.{
  String, Bool, true, not, ◌&&◌, Option, none, some, List, [], ◌∷◌, ◌++◌, is_in, is_some,
  if◌then◌else◌,
}
use fuzzing_framework.Validator.Data.{
  RawBlock, RawSizeOf, text_target, listed, no_reference, Issue, report_if, size_of_no_reference,
  size_of_no_text, circular_size_of, unknown_target, all_immutable, variable_in_the_middle,
}
use fuzzing_framework.Validator.States.{is_empty}

-- `{b["name"] for b in blocks if "name" in b}`
unfoldable pub block_names : List RawBlock → List String
block_names [] = []
block_names (b ∷ blocks) = elim b.name [
  | none ↦ block_names blocks
  | some name ↦ name ∷ block_names blocks
]

-- A round of the loop over `target_fields`.
abbrev pub target_issue : List String → String → Option String → List Issue
target_issue names name none = size_of_no_text name ∷ []
target_issue names name (some t) =
    report_if (not (is_in t names)) (unknown_target name t)
    ++ report_if (t == name) (circular_size_of name)

unfoldable pub target_issues : List String → String → List (Option String) → List Issue
unfolding is_in
target_issues names name [] = []
target_issues names name (t ∷ ts) = target_issue names name t ++ target_issues names name ts

-- The check of `size_of`, where the key is there.
unfoldable pub reference_issues : List String → String → RawSizeOf → List Issue
unfolding target_issues
reference_issues names name (text_target t) = target_issues names name (some t ∷ [])
reference_issues names name (listed ts) = target_issues names name ts
reference_issues names name no_reference = size_of_no_reference name ∷ []

-- A round of the loop of `_validate_dependencies` at a block of that name.
unfoldable pub dependency_issues : List String → RawBlock → String → List Issue
unfolding reference_issues
dependency_issues names b name = if name == "" then [] else elim b.size_of [
  | none ↦ []
  | some reference ↦ if b.is_size_field then reference_issues names name reference else []
]

unfoldable pub dependencies_issues : List String → List RawBlock → List Issue
unfolding dependency_issues
dependencies_issues names [] = []
dependencies_issues names (b ∷ blocks) = elim b.name [
  | none ↦ dependencies_issues names blocks
  | some name ↦ dependency_issues names b name ++ dependencies_issues names blocks
]

-- `mutable_count == 0`
abbrev none_mutable : List RawBlock → Bool
none_mutable [] = true
none_mutable (b ∷ blocks) = not b.mutable && none_mutable blocks

-- `_validate_dependencies`
unfoldable pub validate_dependencies : List RawBlock → List Issue
unfolding block_names dependencies_issues
validate_dependencies blocks =
    dependencies_issues (block_names blocks) blocks
    ++ report_if (none_mutable blocks && not (is_empty blocks)) all_immutable

-- The texts of a list; an entry that is no text is no block's name.
abbrev text_entries : List (Option String) → List String
text_entries [] = []
text_entries (none ∷ ts) = text_entries ts
text_entries (some t ∷ ts) = t ∷ text_entries ts

abbrev referenced : Option RawSizeOf → List String
referenced (some (text_target t)) = t ∷ []
referenced (some (listed ts)) = text_entries ts
referenced _ = []

-- `fields_with_length_ref`
unfoldable pub fields_with_length_ref : List RawBlock → List String
fields_with_length_ref [] = []
fields_with_length_ref (b ∷ blocks) =
    (if b.is_size_field then referenced b.size_of else []) ++ fields_with_length_ref blocks

-- The second loop of `_validate_variable_length_positioning`.
unfoldable pub position_issues : List String → List RawBlock → List Issue
unfolding is_in is_some
position_issues with_length [] = []
position_issues with_length (b ∷ blocks) = elim b.name [
  | none ↦ position_issues with_length blocks
  | some name ↦
      report_if
        (not (name == "")
          && is_some b.max_size
          && not (is_some b.size)
          && not (is_in name with_length)
          && not (is_empty blocks))
        (variable_in_the_middle name)
      ++ position_issues with_length blocks
]

-- `_validate_variable_length_positioning`
unfoldable pub validate_variable_length_positioning : List RawBlock → List Issue
unfolding fields_with_length_ref position_issues
validate_variable_length_positioning blocks = position_issues (fields_with_length_ref blocks) blocks
