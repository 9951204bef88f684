-- ===== src/Navigator/Select.antt =====
-- `select_termination_message`, `select_message_for_mode` and what they call.
use text.Mathlib.Text.{◌==◌ as same_text}
use fuzzing_framework.Prelude.{
  ℕ, ◌+◌, ltb, String, Bool, true, false, not, ◌&&◌, ◌||◌, Option, none, some, List, [], ◌∷◌,
  if◌then◌else◌,
}
use fuzzing_framework.Dict.{Dict, get}
use fuzzing_framework.Protocol.Parse.{Codec}
use fuzzing_framework.Stateful.Session.{Transition, Session, is_text, get_valid_transitions}
use fuzzing_framework.Stateful.Coverage.{get_state_coverage}
use fuzzing_framework.Stateful.Choice.{
  Suggests, Chances, get_transitions_to_termination, get_message_type_for_state,
  find_seed_for_message_type,
}
use fuzzing_framework.Navigator.{find_path_to_state}
use fuzzing_framework.Navigator.Drive.{
  FuzzSession, breadth_first, depth_first, targeted, other_mode,
}

abbrev has_seed : Option (List ℕ) → Bool
has_seed none = false
has_seed (some []) = false
has_seed (some (b ∷ bs)) = true

module _ (codec : Codec) (s : Session) (seeds : List (List ℕ)) where
  -- The seed of a message type, where it is given and not empty.
  unfoldable pub seed_of_type : Option String → Option (List ℕ)
  unfolding find_seed_for_message_type
  seed_of_type none = none
  seed_of_type (some message_type) =
      if same_text message_type ""
      then none
      else find_seed_for_message_type codec s message_type seeds

  -- The first loop of `select_termination_message`; an empty seed counts as none.
  unfoldable pub select_direct : List Transition → Option (List ℕ)
  unfolding seed_of_type
  select_direct [] = none
  select_direct (t ∷ ts) =
      let rest = select_direct ts in
      let seed = seed_of_type t.message_type in
      if is_text t.from_state s.current_state && has_seed seed then seed else rest

  -- A message towards a state that is given, not empty, and another.
  unfoldable pub seed_towards : Option String → Option (List ℕ)
  unfolding find_path_to_state seed_of_type
  seed_towards none = none
  seed_towards (some state) =
      if same_text state "" || same_text state s.current_state
      then none
      else seed_of_type (find_path_to_state none s.state_model.transitions s.current_state state)

  -- The second loop.
  unfoldable pub select_towards : List Transition → Option (List ℕ)
  unfolding seed_towards
  select_towards [] = none
  select_towards (t ∷ ts) =
      let rest = select_towards ts in
      let seed = seed_towards t.from_state in if has_seed seed then seed else rest

  -- `select_termination_message`: the seed, and `session.termination_tests`.
  unfoldable pub select_termination_message : Suggests → FuzzSession → Option (List ℕ) × FuzzSession
  unfolding get_transitions_to_termination select_direct select_towards
  select_termination_message suggests f =
      let transitions = get_transitions_to_termination suggests s in
      elim (select_direct transitions) [
        | some seed ↦ (some seed, record f { termination_tests = f.termination_tests + 1 })
        | none ↦ (select_towards transitions, f)
      ]

  -- `state_coverage.get(t.get("to", ""), 0)`
  abbrev visits_of : Dict ℕ → Transition → ℕ
  visits_of coverage t = elim (get (elim t.to_state [ none ↦ "" | some state ↦ state ]) coverage) [
    | none ↦ 0
    | some count ↦ count
  ]

  -- `min(valid_transitions, key=…)`: the first of the least.
  unfoldable pub least_visited : Dict ℕ → Transition → List Transition → Transition
  unfolding get
  least_visited coverage best [] = best
  least_visited coverage best (t ∷ ts) =
      if ltb (visits_of coverage t) (visits_of coverage best)
      then least_visited coverage t ts
      else least_visited coverage best ts

  abbrev breadth_first_from : List Transition → Option (List ℕ)
  breadth_first_from [] = none
  breadth_first_from (t ∷ ts) =
      seed_of_type (least_visited (get_state_coverage s) t ts).message_type

  -- `_select_breadth_first`
  unfoldable pub select_breadth_first : Option (List ℕ)
  unfolding get_valid_transitions get_state_coverage least_visited seed_of_type
  select_breadth_first = breadth_first_from (get_valid_transitions s)

  -- `_select_depth_first`
  unfoldable pub select_depth_first : Suggests → Chances → Option (List ℕ)
  unfolding get_message_type_for_state seed_of_type
  select_depth_first suggests c = seed_of_type (get_message_type_for_state suggests c s)

  -- `_should_navigate_to_target`
  abbrev should_navigate_to_target : Option String → Bool
  should_navigate_to_target none = false
  should_navigate_to_target (some target) =
      not (same_text target "") && not (same_text s.current_state target)

  abbrev path_message : Option String → Option String
  path_message none = none
  path_message (some target) =
      find_path_to_state none s.state_model.transitions s.current_state target

  -- `_select_targeted`, in the mode `targeted`
  unfoldable pub select_targeted : Suggests → Chances → Option String → Option (List ℕ)
  unfolding get_message_type_for_state find_path_to_state seed_of_type
  select_targeted suggests c target =
      if should_navigate_to_target target
      then seed_of_type (path_message target)
      else seed_of_type (get_message_type_for_state suggests c s)

  -- `select_message_for_mode`
  unfoldable pub select_message_for_mode : Suggests → Chances → FuzzSession → Option (List ℕ)
  unfolding select_breadth_first select_depth_first select_targeted
  select_message_for_mode suggests c f = elim f.fuzzing_mode [
    | breadth_first ↦ select_breadth_first
    | depth_first ↦ select_depth_first suggests c
    | targeted ↦ select_targeted suggests c f.target_state
    | other_mode ↦ none
  ]
