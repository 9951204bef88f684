-- ===== src/Validator/Parts.antt =====
-- The parts of what `validate_plugin` reports, and what an accepted plugin satisfies.
use fuzzing_framework.Prelude.{◌≡◌, sym, subst, true, List, ◌++◌}
use fuzzing_framework.Result.{Result, ok, err, >>=-eq-ok}
use fuzzing_framework.Protocol.Model.{Block}
use fuzzing_framework.Protocol.Parse.{Codec}
use fuzzing_framework.Validator.Data.{
  RawBlock, RawDataModel, RawStateModel, Issue, is_valid, Raised,
}
use fuzzing_framework.Validator.States.{all_dicts, or_nothing}
use fuzzing_framework.Validator.Blocks.{validate_dynamic_fields}
use fuzzing_framework.Validator.Dependencies.{
  validate_dependencies, validate_variable_length_positioning,
}
use fuzzing_framework.Validator.Plugin.{
  validate_plugin, validate_state_model, validate_data_model_structure, validate_seeds, of_blocks,
}
use fuzzing_framework.Validator.Accepted.{valid_left, valid_right}

valid_parts :
    (a b c d e f g : List Issue)
    → is_valid (a ++ b ++ c ++ d ++ e ++ f ++ g) ≡ true
    → (is_valid a ≡ true)
      × (is_valid b ≡ true)
      × (is_valid c ≡ true)
      × (is_valid d ≡ true)
      × (is_valid e ≡ true)
valid_parts a b c d e f g h =
    let to_e = valid_left (a ++ b ++ c ++ d ++ e) f (valid_left (a ++ b ++ c ++ d ++ e ++ f) g h) in
    let to_d = valid_left (a ++ b ++ c ++ d) e to_e in
    let to_c = valid_left (a ++ b ++ c) d to_d in
    let to_b = valid_left (a ++ b) c to_c in
    (
      valid_left a b to_b,
      valid_right a b to_b,
      valid_right (a ++ b) c to_c,
      valid_right (a ++ b ++ c) d to_d,
      valid_right (a ++ b ++ c ++ d) e to_e,
    )

abbrev IsAccepted : Result Raised (List Issue) → Type 0
IsAccepted (err e) = ⊥
IsAccepted (ok issues) = is_valid issues ≡ true

module _ (codec : Codec) (denormalized : List Block) (m : RawDataModel) (s : RawStateModel) where
  -- What each part of an accepted plugin reports.
  pub record ArePartsAccepted : Type 0 where
    pub structure : is_valid (validate_data_model_structure m) ≡ true
    pub blocks : is_valid (of_blocks m.blocks) ≡ true
    pub seeds : is_valid (validate_seeds codec denormalized 0 m.seeds) ≡ true
    pub state_issues : List Issue
    pub states : validate_state_model codec denormalized m s ≡ ok state_issues
    pub state_model : is_valid state_issues ≡ true
    pub dicts : List RawBlock
    pub all : all_dicts (or_nothing m.blocks) ≡ ok dicts
    pub dependencies : is_valid (validate_dependencies dicts) ≡ true

  pub accepted_parts :
      (issues : List Issue)
      → validate_plugin codec denormalized m s ≡ ok issues
      → is_valid issues ≡ true
      → ArePartsAccepted
  unfolding validate_plugin
  accepted_parts issues e h =
      let (i, states, next) = >>=-eq-ok (validate_state_model codec denormalized m s) _ e in
      let (bs, all, result) = >>=-eq-ok (all_dicts (or_nothing m.blocks)) _ next in
      let (in_structure, in_blocks, in_seeds, in_states, in_dependencies) =
        valid_parts (validate_data_model_structure m) (of_blocks m.blocks)
          (validate_seeds codec denormalized 0 m.seeds) i (validate_dependencies bs)
          (validate_dynamic_fields bs) (validate_variable_length_positioning bs)
          (subst (λ x. IsAccepted x) (sym result) h) in
      record {
        structure = in_structure;
        blocks = in_blocks;
        seeds = in_seeds;
        state_issues = i;
        states = states;
        state_model = in_states;
        dicts = bs;
        all = all;
        dependencies = in_dependencies;
      }
