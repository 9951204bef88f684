-- ===== src/Navigator/Drive.antt =====
-- `StateNavigator` without the search: the reset interval, the injection of termination tests, the
-- choice of a message by mode, and `update_state`.
use text.Mathlib.Text.{◌==◌ as same_text}
use fuzzing_framework.Prelude.{
  ℕ, zero, suc, ◌+◌, ◌-◌, ◌/◌, ◌%◌, String, Bool, true, false, not, ◌&&◌, Option, none, some, List,
  [], ◌∷◌, is_in, if◌then◌else◌,
}
use fuzzing_framework.Prelude.Int.{ℤ, pos, negsuc, leb_ℤ}
use fuzzing_framework.Result.{Result, ok, err, ◌>>=◌}
use fuzzing_framework.Dict.{Dict}
use fuzzing_framework.Protocol.Parse.{Codec}
use fuzzing_framework.Stateful.Session.{Transition, Session, update_state, reset_to_initial_state}
use fuzzing_framework.Stateful.Coverage.{get_state_coverage, get_transition_coverage}
use fuzzing_framework.Stateful.Choice.{
  Suggests, get_termination_states, get_transitions_to_termination, DivisionError, is_due,
  should_reset,
}

pub data FuzzingMode : Type 0 where
  breadth_first depth_first targeted other_mode : FuzzingMode

-- The fields of `FuzzSession` that the navigator reads or sets.
pub record FuzzSession : Type 0 where
  pub fuzzing_mode : FuzzingMode
  pub target_state : Option String
  pub session_reset_interval : Option ℤ
  pub enable_termination_fuzzing : Bool
  pub termination_reset_pending : Bool
  pub tests_since_last_reset : ℕ
  pub session_resets : ℕ
  pub termination_tests : ℕ
  pub current_state : Option String
  pub state_coverage : Dict ℕ
  pub transition_coverage : Dict ℕ

pub record Settings : Type 0 where
  pub stateful_reset_interval_bfs : ℤ
  pub stateful_reset_interval_dfs : ℤ
  pub stateful_reset_interval_targeted : ℤ
  pub stateful_reset_interval_random : ℤ
  pub termination_test_window : ℤ
  pub termination_test_interval : ℤ

-- `session.target_state` is given and not empty.
abbrev has_target : Option String → Bool
has_target none = false
has_target (some state) = not (same_text state "")

-- The defaults by mode.
abbrev interval_of_mode : Settings → FuzzingMode → Option String → ℤ
interval_of_mode settings breadth_first target = settings.stateful_reset_interval_bfs
interval_of_mode settings depth_first target = settings.stateful_reset_interval_dfs
interval_of_mode settings targeted target =
    if has_target target
    then settings.stateful_reset_interval_targeted
    else settings.stateful_reset_interval_random
interval_of_mode settings other_mode target = settings.stateful_reset_interval_random

-- `get_reset_interval`
unfoldable pub get_reset_interval : Settings → FuzzSession → ℤ
get_reset_interval settings f = elim f.session_reset_interval [
  | some interval ↦ interval
  | none ↦ interval_of_mode settings f.fuzzing_mode f.target_state
]

-- `reset_interval - (iteration % reset_interval) if reset_interval > 0 else 999`
abbrev tests_until_reset : ℤ → ℕ → ℤ
tests_until_reset (pos (suc m)) iteration = pos (suc m - iteration % suc m)
tests_until_reset _ iteration = pos 999

-- `reset_interval // 2`, which rounds down.
abbrev half : ℤ → ℤ
half (pos m) = pos (m / 2)
half (negsuc m) = negsuc (m / 2)

abbrev min_ℤ : ℤ → ℤ → ℤ
min_ℤ a b = if leb_ℤ a b then a else b

abbrev max_ℤ : ℤ → ℤ → ℤ
max_ℤ a b = if leb_ℤ a b then b else a

-- `termination_interval`
abbrev termination_interval : Settings → ℤ → ℤ
termination_interval settings (pos zero) = settings.termination_test_interval
termination_interval settings reset_interval =
    min_ℤ settings.termination_test_interval (max_ℤ (half reset_interval) (pos 10))

abbrev pending : FuzzSession → FuzzSession
pending f = record f { termination_reset_pending = true }

abbrev no_transitions : List Transition → Bool
no_transitions [] = true
no_transitions (t ∷ ts) = false

-- `should_inject_termination_test`
unfoldable pub should_inject_termination_test :
    Suggests → Settings → Session → FuzzSession → ℕ → Result DivisionError (Bool × FuzzSession)
unfolding get_transitions_to_termination get_reset_interval
should_inject_termination_test suggests settings s f iteration =
    let interval = get_reset_interval settings f in
    if not f.enable_termination_fuzzing
    then ok (false, f)
    else if f.termination_reset_pending
    then ok (true, f)
    else if no_transitions (get_transitions_to_termination suggests s)
    then ok (false, f)
    else if leb_ℤ (tests_until_reset interval iteration) settings.termination_test_window
    then ok (true, pending f)
    else (do
      due ← is_due iteration (termination_interval settings interval)
      if due then ok (true, pending f) else ok (false, f))

-- The coverage and the count that every test brings up to date.
unfoldable pub counted : Session → FuzzSession → FuzzSession
unfolding get_state_coverage get_transition_coverage
counted s f = record f {
  current_state = some s.current_state;
  state_coverage = get_state_coverage s;
  transition_coverage = get_transition_coverage s;
  tests_since_last_reset = f.tests_since_last_reset + 1;
}

abbrev pub with_reset : FuzzSession → FuzzSession
with_reset f = record f { session_resets = f.session_resets + 1; tests_since_last_reset = 0 }

-- The two resets of `update_state`: whether a pending termination is reached, what `should_reset`
-- returns, and whether a termination is pending.
abbrev pub settle :
    Bool
    → Result DivisionError Bool
    → Bool
    → Session
    → FuzzSession
    → Result DivisionError (Session × FuzzSession)
settle true due waits s f =
    ok (reset_to_initial_state s, record (with_reset f) { termination_reset_pending = false })
settle false (err e) waits s f = err e
settle false (ok due) waits s f =
    if due && not waits then ok (reset_to_initial_state s, with_reset f) else ok (s, f)

-- The rest of `update_state` once the session has moved.
unfoldable pub after_test :
    Suggests → Settings → Session → FuzzSession → ℕ → Result DivisionError (Session × FuzzSession)
unfolding get_termination_states get_reset_interval should_reset reset_to_initial_state counted
    is_in
after_test suggests settings s f iteration =
    settle
      (f.termination_reset_pending && is_in s.current_state (get_termination_states suggests s))
      (should_reset s iteration (get_reset_interval settings f)) f.termination_reset_pending s
      (counted s f)

-- `update_state`
unfoldable pub navigator_update_state :
    Suggests
    → Settings
    → Codec
    → Session
    → FuzzSession
    → List ℕ
    → Option (List ℕ)
    → String
    → ℕ
    → Result DivisionError (Session × FuzzSession)
unfolding update_state after_test
navigator_update_state suggests settings codec s f test_data response result iteration =
    after_test suggests settings (update_state codec s test_data response result) f iteration
