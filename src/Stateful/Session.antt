-- ===== src/Stateful/Session.antt =====
-- `StatefulFuzzingSession`: its state, and the operations that change it. Timestamps and log lines
-- are left out.
use text.Mathlib.Text.{◌==◌}
use fuzzing_framework.Prelude.{
  ℕ, String, Bool, true, false, ◌&&◌, ◌||◌, Option, none, some, List, [], ◌∷◌, ◌++◌, if◌then◌else◌,
}
use fuzzing_framework.Prelude.Int.{ℤ, eq_ℤ}
use fuzzing_framework.Result.{ok, err}
use fuzzing_framework.Dict.{Dict, get}
use fuzzing_framework.Protocol.Model.{Value, int, Block, Fields}
use fuzzing_framework.Protocol.Parse.{Codec, parse}
use fuzzing_framework.Stateful.Commands.{build_message_type_mapping}
use fuzzing_framework.Transform.{ReadInt}

-- A transition of the plugin's state model, a `dict`.
pub record Transition : Type 0 where
  pub from_state : Option String
  pub to_state : Option String
  pub message_type : Option String
  pub message : Option String
  pub trigger : Option String
  pub expected_response : Option String

pub record StateModel : Type 0 where
  pub initial_state : Option String
  pub states : List String
  pub transitions : List Transition

-- An entry of `state_history`.
pub record HistoryRecord : Type 0 where
  pub from_state : String
  pub message_type : String
  pub execution_result : String
  pub to_state : Option String
  pub success : Bool
  pub reason : Option String

pub record Session : Type 0 where
  pub state_model : StateModel
  pub data_model : List Block
  pub response_model : Option (List Block)
  pub current_state : String
  pub state_history : List HistoryRecord
  pub coverage_offset : Dict ℕ
  pub transition_offset : Dict ℕ
  pub resumed_from_offsets : Bool
  pub has_new_activity : Bool
  pub message_type_field : Option String
  pub message_type_to_command : Dict ℤ

-- `state_model.get("initial_state", "INIT")`
abbrev pub initial_state_of : StateModel → String
initial_state_of m = elim m.initial_state [ none ↦ "INIT" | some s ↦ s ]

-- `__init__`
unfoldable pub new_session : ReadInt → StateModel → List Block → Option (List Block) → Session
unfolding build_message_type_mapping
new_session read model blocks response =
    let (field, commands) = build_message_type_mapping read blocks in
    record {
      state_model = model;
      data_model = blocks;
      response_model = response;
      current_state = initial_state_of model;
      state_history = [];
      coverage_offset = [];
      transition_offset = [];
      resumed_from_offsets = false;
      has_new_activity = false;
      message_type_field = field;
      message_type_to_command = commands;
    }

-- `a or b` of texts: `None` and the empty text are false.
unfoldable pub or_text : Option String → Option String → Option String
or_text none b = b
or_text (some a) b = if a == "" then b else some a

-- `_get_message_type`
unfoldable pub get_message_type : Transition → Option String
unfolding or_text
get_message_type t = or_text (or_text t.message_type t.message) t.trigger

abbrev pub is_text : Option String → String → Bool
is_text none s = false
is_text (some a) s = a == s

-- `t.get("from") == state or t.get("from") == "*"`
abbrev pub leaves : Transition → String → Bool
leaves t state = is_text t.from_state state || is_text t.from_state "*"

-- `get_valid_transitions`
unfoldable pub valid_from : String → List Transition → List Transition
valid_from state [] = []
valid_from state (t ∷ ts) =
    let rest = valid_from state ts in if leaves t state then t ∷ rest else rest

unfoldable pub get_valid_transitions : Session → List Transition
unfolding valid_from
get_valid_transitions s = valid_from s.current_state s.state_model.transitions

-- `_find_transition`
unfoldable pub find_transition : List Transition → String → String → Option Transition
unfolding get_message_type
find_transition [] state message_type = none
find_transition (t ∷ ts) state message_type =
    if leaves t state && is_text (get_message_type t) message_type
    then some t
    else find_transition ts state message_type

abbrev pub is_code : Value → ℤ → Bool
is_code (int v) c = eq_ℤ c v
is_code _ c = false

-- The first message type with the command value.
unfoldable pub type_of_command : Dict ℤ → Value → Option String
type_of_command [] v = none
type_of_command ((name, c) ∷ rest) v = if is_code v c then some name else type_of_command rest v

-- The lookup of a field by `identify_message_type`; `None` is no value.
abbrev type_in_field : Session → Fields → Option String
type_in_field s fields = elim s.message_type_field [
  | none ↦ none
  | some field ↦ elim (get field fields) [
    | none ↦ none
    | some v ↦ type_of_command s.message_type_to_command v
  ]
]

-- `identify_message_type`; what `parse` raises means that no type is known.
unfoldable pub identify_message_type : Codec → Session → List ℕ → Option String
unfolding parse type_of_command
identify_message_type codec s message = elim (parse codec s.data_model message) [
  | err e ↦ none
  | ok fields ↦ type_in_field s fields
]

-- The common names of a type field in a response, in order; a value that no command has is passed over.
unfoldable pub type_in_names : Session → Fields → List String → Option String
unfolding type_of_command
type_in_names s fields [] = none
type_in_names s fields (name ∷ names) =
    let rest = type_in_names s fields names in
    elim (get name fields) [
      | none ↦ rest
      | some v ↦ elim (type_of_command s.message_type_to_command v) [
        | some t ↦ some t
        | none ↦ rest
      ]
    ]

-- `_identify_response_message_type`
unfoldable pub identify_response : Codec → Session → List ℕ → Option String
unfolding parse type_in_names
identify_response codec s response = elim s.response_model [
  | none ↦ none
  | some blocks ↦ elim (parse codec blocks response) [
    | err e ↦ none
    | ok fields ↦ type_in_names s fields ("message_type" ∷ "command" ∷ "type" ∷ "msg_type" ∷ [])
  ]
]

abbrev pub is_empty : List ℕ → Bool
is_empty [] = true
is_empty (b ∷ bs) = false

-- `_validate_expected_response`: what cannot be identified is let pass.
unfoldable pub validate_expected_response : Codec → Session → List ℕ → String → Bool
unfolding identify_response
validate_expected_response codec s response expected =
    if is_empty response then false else elim (identify_response codec s response) [
      | none ↦ true
      | some actual ↦ actual == expected
    ]

-- `response_matches` of `update_state`: without an expected response, or without a response, the step
-- is taken to have succeeded.
unfoldable pub response_matches : Codec → Session → Transition → Option (List ℕ) → Bool
unfolding validate_expected_response
response_matches codec s t none = true
response_matches codec s t (some response) = elim t.expected_response [
  | none ↦ true
  | some expected ↦
      if expected == "" || is_empty response
      then true
      else validate_expected_response codec s response expected
]

abbrev pub target_of : Transition → String → String
target_of t state = elim t.to_state [ none ↦ state | some s ↦ s ]

-- The state and the history behind an attempt: `to` is the state that it moves to, if it does.
abbrev pub attempt : Session → String → String → Option String → Bool → Option String → Session
attempt s message_type result to success reason = record s {
  current_state = elim to [ none ↦ s.current_state | some u ↦ u ];
  state_history =
      s.state_history
      ++ record {
        from_state = s.current_state;
        message_type = message_type;
        execution_result = result;
        to_state = to;
        success = success;
        reason = reason;
      }
        ∷ [];
  has_new_activity = true;
}

-- `update_state` once the transition is found.
unfoldable pub apply_transition :
    Codec → Session → Transition → String → Option (List ℕ) → String → Session
unfolding response_matches
apply_transition codec s t message_type response result =
    if result == "pass"
    then (if response_matches codec s t response
        then attempt s message_type result (some (target_of t s.current_state)) true none
        else attempt s message_type result none false (some "unexpected_response"))
    else attempt s message_type result none false (some result)

-- `update_state`
unfoldable pub update_state : Codec → Session → List ℕ → Option (List ℕ) → String → Session
unfolding identify_message_type find_transition apply_transition
update_state codec s sent response result = elim (identify_message_type codec s sent) [
  | none ↦ s
  | some message_type ↦
      if message_type == ""
      then s
      else elim (find_transition s.state_model.transitions s.current_state message_type) [
        | none ↦ s
        | some t ↦ apply_transition codec s t message_type response result
      ]
]

-- `reset_to_initial_state`
unfoldable pub reset_to_initial_state : Session → Session
reset_to_initial_state s = record s { current_state = initial_state_of s.state_model }

-- A truthy dict has an entry.
abbrev pub has_entries {ℓ} : {A : Type ℓ} → Option (List A) → Bool
has_entries none = false
has_entries (some []) = false
has_entries (some (x ∷ xs)) = true

-- `dict(coverage)` where it is given and not empty
abbrev given_or : Option (Dict ℕ) → Dict ℕ → Dict ℕ
given_or none d = d
given_or (some []) d = d
given_or (some (x ∷ xs)) d = x ∷ xs

-- `restore_state`
unfoldable pub restore_state :
    Session
    → Option String
    → Option (List HistoryRecord)
    → Option (Dict ℕ)
    → Option (Dict ℕ)
    → Session
unfolding or_text
restore_state s state history coverage transitions =
    let s₁ = record s {
      current_state = elim (or_text state none) [ none ↦ s.current_state | some u ↦ u ];
    } in
    elim history [
      | some (r ∷ rs) ↦ record s₁ { state_history = r ∷ rs; resumed_from_offsets = false }
      | _ ↦ record s₁ {
        coverage_offset = given_or coverage s.coverage_offset;
        transition_offset = given_or transitions s.transition_offset;
        resumed_from_offsets =
            if has_entries coverage || has_entries transitions
            then true
            else s.resumed_from_offsets;
      }
    ]
