-- ===== src/Stateful/Choice.antt =====
-- The choice of the next message: `get_termination_states`, `get_transitions_to_termination`,
-- `select_transition`, `get_message_type_for_state`, `find_seed_for_message_type` and `should_reset`.
use text.Mathlib.Text.{◌==◌ as same_text}
use fuzzing_framework.Prelude.{
  ℕ, zero, suc, ◌%◌, ◌==◌, String, Bool, true, false, not, ◌||◌, Option, none, some, List, [], ◌∷◌,
  length, is_in, if◌then◌else◌,
}
use fuzzing_framework.Result.{Result, ok, err}
use fuzzing_framework.Dict.{Dict, get}
use fuzzing_framework.Protocol.Model.{Fields}
use fuzzing_framework.Protocol.Parse.{Codec, parse}
use fuzzing_framework.Prelude.Int.{ℤ, pos, negsuc}
use fuzzing_framework.Stateful.Session.{
  Transition, Session, is_text, is_code, get_message_type, get_valid_transitions,
}
use fuzzing_framework.Stateful.Coverage.{get_state_coverage}

-- `keyword in state.lower()`, by the keyword and the state.
abbrev pub Suggests : Type 0
Suggests = String → String → Bool

abbrev termination_keywords : List String
termination_keywords =
    "disconnect" ∷ "terminated" ∷ "closed" ∷ "end" ∷ "exit" ∷ "final" ∷ "done" ∷ "complete"
    ∷ "shutdown" ∷ "bye" ∷ []

abbrev any_keyword : Suggests → List String → String → Bool
any_keyword suggests [] state = false
any_keyword suggests (k ∷ keywords) state = suggests k state || any_keyword suggests keywords state

-- `state in states_with_outgoing`
unfoldable pub has_outgoing : String → List Transition → Bool
has_outgoing state [] = false
has_outgoing state (t ∷ ts) = is_text t.from_state state || has_outgoing state ts

-- The loop of `get_termination_states`.
unfoldable pub terminal_among : Suggests → List Transition → List String → List String
unfolding has_outgoing
terminal_among suggests ts [] = []
terminal_among suggests ts (state ∷ states) =
    let rest = terminal_among suggests ts states in
    if not (has_outgoing state ts) || any_keyword suggests termination_keywords state
    then state ∷ rest
    else rest

-- `get_termination_states`
unfoldable pub get_termination_states : Suggests → Session → List String
unfolding terminal_among
get_termination_states suggests s =
    terminal_among suggests s.state_model.transitions s.state_model.states

-- `t.get("to") in termination_states`
abbrev pub leads_into : List String → Transition → Bool
leads_into states t = elim t.to_state [ none ↦ false | some state ↦ is_in state states ]

unfoldable pub filter_into : List String → List Transition → List Transition
unfolding is_in
filter_into states [] = []
filter_into states (t ∷ ts) =
    let rest = filter_into states ts in if leads_into states t then t ∷ rest else rest

-- `get_transitions_to_termination`
unfoldable pub get_transitions_to_termination : Suggests → Session → List Transition
unfolding get_termination_states filter_into
get_transitions_to_termination suggests s =
    filter_into (get_termination_states suggests s) s.state_model.transitions

-- The draws of one call of `select_transition`: its three tests of `random.random()`, and the index that
-- `random.choice` takes in a list of that length.
pub record Chances : Type 0 where
  pub explores : Bool
  pub exits : Bool
  pub progresses : Bool
  pub index : ℕ → ℕ

-- `xs[i]`; behind the end there is nothing, which `random.choice` never asks for.
unfoldable pub entry : {A : Type 0} → ℕ → List A → Option A
entry i [] = none
entry zero (x ∷ xs) = some x
entry (suc i) (x ∷ xs) = entry i xs

-- `random.choice(xs) if xs else None`
abbrev pub choice : {A : Type 0} → Chances → List A → Option A
choice c xs = entry (c.index (length xs)) xs

-- `state_coverage.get(t.get("to"), 0) == 0`
abbrev pub is_unvisited : Dict ℕ → Transition → Bool
is_unvisited coverage t = elim t.to_state [
  | none ↦ true
  | some state ↦ elim (get state coverage) [ none ↦ true | some count ↦ count == 0 ]
]

unfoldable pub filter_unvisited : Dict ℕ → List Transition → List Transition
unfolding get
filter_unvisited coverage [] = []
filter_unvisited coverage (t ∷ ts) =
    let rest = filter_unvisited coverage ts in if is_unvisited coverage t then t ∷ rest else rest

-- `_find_transition_to_unvisited_state`
unfoldable pub find_to_unvisited : Chances → Session → List Transition → Option Transition
unfolding entry filter_unvisited get_state_coverage
find_to_unvisited c s valid = choice c (filter_unvisited (get_state_coverage s) valid)

-- `_find_transition_to_terminal_state`
unfoldable pub find_to_terminal : Suggests → Chances → Session → List Transition → Option Transition
unfolding entry filter_into get_termination_states
find_to_terminal suggests c s valid =
    choice c (filter_into (get_termination_states suggests s) valid)

abbrev pub or_else : {A : Type 0} → Option A → Option A → Option A
or_else none b = b
or_else (some a) b = some a

-- The choice among several transitions.
unfoldable pub select_among : Suggests → Chances → Session → List Transition → Option Transition
unfolding find_to_unvisited find_to_terminal entry
select_among suggests c s valid =
    or_else (if c.explores then find_to_unvisited c s valid else none) (
      or_else (if c.exits then find_to_terminal suggests c s valid else none)
        (if c.progresses then entry 0 valid else choice c valid))

abbrev pub select_from : Suggests → Chances → Session → List Transition → Option Transition
select_from suggests c s [] = none
select_from suggests c s (t ∷ []) = some t
select_from suggests c s (t ∷ u ∷ ts) = select_among suggests c s (t ∷ u ∷ ts)

-- `select_transition`
unfoldable pub select_transition : Suggests → Chances → Session → Option Transition
unfolding get_valid_transitions select_among
select_transition suggests c s = select_from suggests c s (get_valid_transitions s)

-- `get_message_type_for_state`
unfoldable pub get_message_type_for_state : Suggests → Chances → Session → Option String
unfolding select_transition get_message_type
get_message_type_for_state suggests c s = elim (select_transition suggests c s) [
  | none ↦ none
  | some t ↦ get_message_type t
]

-- `fields.get(self.message_type_field) == command_value`
abbrev pub carries : String → ℤ → Fields → Bool
carries field command fields = elim (get field fields) [ none ↦ false | some v ↦ is_code v command ]

-- The loop over the seeds; one that cannot be parsed is passed over.
unfoldable pub find_seed : Codec → Session → String → ℤ → List (List ℕ) → Option (List ℕ)
unfolding parse get
find_seed codec s field command [] = none
find_seed codec s field command (seed ∷ seeds) =
    let rest = find_seed codec s field command seeds in
    elim (parse codec s.data_model seed) [
      | err e ↦ rest
      | ok fields ↦ if carries field command fields then some seed else rest
    ]

-- `find_seed_for_message_type`
unfoldable pub find_seed_for_message_type :
    Codec → Session → String → List (List ℕ) → Option (List ℕ)
unfolding find_seed get
find_seed_for_message_type codec s message_type seeds =
    elim (get message_type s.message_type_to_command) [
      | none ↦ none
      | some command ↦ elim s.message_type_field [
        | none ↦ none
        | some field ↦ if same_text field "" then none else find_seed codec s field command seeds
      ]
    ]

pub data DivisionError : Type 0 where
  zero_division : DivisionError

-- `iteration > 0 and iteration % interval == 0`, for an interval of either sign
abbrev pub is_due : ℕ → ℤ → Result DivisionError Bool
is_due zero interval = ok false
is_due (suc n) (pos zero) = err zero_division
is_due (suc n) (pos (suc m)) = ok (suc n % suc m == 0)
is_due (suc n) (negsuc m) = ok (suc n % suc m == 0)

abbrev no_transition : List Transition → Bool
no_transition [] = true
no_transition (t ∷ ts) = false

-- `should_reset`
unfoldable pub should_reset : Session → ℕ → ℤ → Result DivisionError Bool
unfolding get_valid_transitions
should_reset s iteration reset_interval = elim (is_due iteration reset_interval) [
  | err e ↦ err e
  | ok due ↦ ok (due || no_transition (get_valid_transitions s))
]
