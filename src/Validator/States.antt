-- ===== src/Validator/States.antt =====
-- `_validate_state_model`: the transitions, and the states that nothing reaches.
use text.Mathlib.Text.{◌==◌}
use fuzzing_framework.Prelude.{
  ℕ, zero, suc, ◌+◌, String, Bool, true, false, not, ◌&&◌, ◌||◌, Option, none, some, List, [], ◌∷◌,
  ◌++◌, length, is_in, if◌then◌else◌,
}
use fuzzing_framework.Result.{Result, ok, err, ◌>>=◌}
use fuzzing_framework.Stateful.Session.{Transition}
use fuzzing_framework.Navigator.{Node, is_visited}
use fuzzing_framework.Validator.Data.{
  RawStateModel, Issue, report_if, transition_no_dict, missing_from, missing_to, unknown_type,
  undefined_from, undefined_to, unreachable, missing_initial, missing_states, Raised,
  attribute_error,
}

-- `if not state: … elif state not in states: …`
unfoldable pub state_issues : Option String → List String → Issue → (String → Issue) → List Issue
unfolding is_in
state_issues none states missing undefined = missing ∷ []
state_issues (some s) states missing undefined =
    if s == "" then missing ∷ [] else report_if (not (is_in s states)) (undefined s)

abbrev pub is_empty {ℓ} : {A : Type ℓ} → List A → Bool
is_empty [] = true
is_empty (x ∷ xs) = false

-- `message_type and message_types and message_type not in message_types`
unfoldable pub type_issues : Option String → List String → ℕ → List Issue
unfolding is_in
type_issues none types i = []
type_issues (some t) types i =
    report_if (not (t == "") && not (is_empty types) && not (is_in t types)) (unknown_type i)

-- One round of the loop of `_validate_transitions`.
unfoldable pub transition_issues : List String → List String → ℕ → Option Transition → List Issue
unfolding state_issues type_issues
transition_issues states types i none = transition_no_dict i ∷ []
transition_issues states types i (some t) =
    state_issues t.from_state states (missing_from i) (undefined_from i)
    ++ state_issues t.to_state states (missing_to i) (undefined_to i)
    ++ type_issues t.message_type types i

unfoldable pub validate_transitions :
    List String → List String → ℕ → List (Option Transition) → List Issue
unfolding transition_issues
validate_transitions states types i [] = []
validate_transitions states types i (t ∷ ts) =
    transition_issues states types i t ++ validate_transitions states types (i + 1) ts

-- One pass of `while changed`: the new `reachable`, and whether a state was added.
unfoldable pub reach_once : List Transition → List Node → List Node × Bool
unfolding is_visited
reach_once [] reachable = (reachable, false)
reach_once (t ∷ ts) reachable =
    elim (is_visited t.from_state reachable && not (is_visited t.to_state reachable)) [
      | true ↦ ((reach_once ts (t.to_state ∷ reachable)).0, true)
      | false ↦ reach_once ts reachable
    ]

-- The loop, with fuel: one pass for each transition and one more are enough.
unfoldable pub reach : ℕ → List Transition → List Node → List Node
unfolding reach_once
reach zero ts reachable = reachable
reach (suc fuel) ts reachable =
    let (next, changed) = reach_once ts reachable in
    elim changed [ true ↦ reach fuel ts next | false ↦ next ]

-- `{initial_state} if initial_state else set()`
abbrev pub initial_nodes : Option String → List Node
initial_nodes none = []
initial_nodes (some s) = if s == "" then [] else some s ∷ []

-- `states - reachable`
unfoldable pub unreached : List String → List Node → List String
unfolding is_visited
unreached [] reachable = []
unreached (s ∷ states) reachable =
    let rest = unreached states reachable in
    if is_visited (some s) reachable then rest else s ∷ rest

-- The declared states that no pass has reached.
unfoldable pub unreachable_states : Option String → List String → List Transition → List String
unfolding reach unreached
unreachable_states initial states ts =
    unreached states (reach (suc (length ts)) ts (initial_nodes initial))

abbrev pub unreachable_issue : List String → List Issue
unreachable_issue [] = []
unreachable_issue (s ∷ states) = unreachable (s ∷ states) ∷ []

-- The entries as dicts, which the second loop takes for granted.
unfoldable pub all_dicts : {A : Type 0} → List (Option A) → Result Raised (List A)
all_dicts [] = ok []
all_dicts (none ∷ ts) = err attribute_error
all_dicts (some t ∷ ts) = do rest ← all_dicts ts; ok (t ∷ rest)

-- `state_model.get(key, [])`
abbrev pub or_nothing {ℓ} : {A : Type ℓ} → Option (List A) → List A
or_nothing none = []
or_nothing (some xs) = xs

-- `_check_unreachable_states`
unfoldable pub check_unreachable_states : RawStateModel → Result Raised (List Issue)
unfolding unreachable_states all_dicts
check_unreachable_states m =
    if is_empty (or_nothing m.states) || is_empty (or_nothing m.transitions) then ok [] else (do
      ts ← all_dicts (or_nothing m.transitions)
      ok (unreachable_issue (unreachable_states m.initial_state (or_nothing m.states) ts)))

abbrev pub is_missing {ℓ} : {A : Type ℓ} → Option A → Bool
is_missing none = true
is_missing (some a) = false

-- `_validate_state_model` without the seeds: `types` are the names of the blocks' values.
unfoldable pub validate_states : List String → RawStateModel → Result Raised (List Issue)
unfolding validate_transitions check_unreachable_states
validate_states types m = do
  unreached ← check_unreachable_states m
  ok (
      report_if (is_missing m.initial_state) missing_initial
      ++ report_if (is_missing m.states) missing_states
      ++ validate_transitions (or_nothing m.states) types 0 (or_nothing m.transitions)
      ++ unreached)
