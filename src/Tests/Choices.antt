-- ===== src/Tests/Choices.antt =====
-- The choice of the next message: the witnesses of its theorems.
use fuzzing_framework.Prelude.{
  ℕ, ◌-◌, is_in, String, ◌≡◌, ◌≢◌, refl, true, false, none, some, List, [], ◌∷◌, arith,
}
use fuzzing_framework.Prelude.Int.{pos}
use fuzzing_framework.Dict.{get, put}
use fuzzing_framework.Stateful.Session.{Transition, get_valid_transitions, update_state}
use fuzzing_framework.Stateful.Choice.{Suggests, Chances, get_termination_states, select_transition}
use fuzzing_framework.Stateful.Chosen.{IsChoosing, IsLeaving, select_transition-IsLeaving}
use fuzzing_framework.Result.{ok}
use fuzzing_framework.Navigator.Drive.{FuzzSession, breadth_first, Settings, get_reset_interval}
use fuzzing_framework.Navigator.Deferred.{Test, AvoidsEnd, navigate, send_all, navigate-send_all}
use fuzzing_framework.Tests.Samples.{ascii, session}

abbrev suggests : Suggests
suggests keyword state = false

abbrev last_chances : Chances
last_chances = record {
  explores = true;
  exits = true;
  progresses = false;
  index = λ size. size - 1;
}

last_chances-IsChoosing : IsChoosing last_chances
last_chances-IsChoosing = record { inside = λ size h. omega arith }

connect_leaves : get_valid_transitions session ≢ []
connect_leaves e = unfold get_valid_transitions in absurd (cc e)

select_transition-IsLeaving_example :
    (t : Transition) × (select_transition suggests last_chances session ≡ some t)
    × IsLeaving session t
select_transition-IsLeaving_example =
    select_transition-IsLeaving suggests last_chances session last_chances-IsChoosing connect_leaves

-- Every state of the sample has a transition that leaves it.
no_termination : get_termination_states suggests session ≡ []
unfolding get_termination_states
no_termination = refl

abbrev connect_type : String
connect_type = "CONNECT"

abbrev seeds : List (List ℕ)
seeds = [] ∷ (2 ∷ []) ∷ (1 ∷ []) ∷ []

abbrev settings : Settings
settings = record {
  stateful_reset_interval_bfs = pos 20;
  stateful_reset_interval_dfs = pos 500;
  stateful_reset_interval_targeted = pos 100;
  stateful_reset_interval_random = pos 300;
  termination_test_window = pos 3;
  termination_test_interval = pos 50;
}

-- A session that resets after every test, with a termination reset that is pending.
abbrev waiting : FuzzSession
waiting = record {
  fuzzing_mode = breadth_first;
  target_state = none;
  session_reset_interval = some (pos 1);
  enable_termination_fuzzing = true;
  termination_reset_pending = true;
  tests_since_last_reset = 0;
  session_resets = 0;
  termination_tests = 0;
  current_state = none;
  state_coverage = [];
  transition_coverage = [];
}

abbrev connect_test : Test
connect_test = record { data' = 1 ∷ []; response = none; result = "pass"; iteration = 1 }

abbrev tests : List Test
tests = connect_test ∷ record connect_test { data' = 2 ∷ []; iteration = 2 } ∷ []

interval_is_one : get_reset_interval settings waiting ≢ pos 0
unfolding get_reset_interval
interval_is_one e = absurd (cc e)

tests_avoid : AvoidsEnd suggests settings ascii session tests
unfolding update_state get_termination_states is_in put get
tests_avoid = (refl, (refl, tt))

navigate-send_all_example :
    (f' : FuzzSession) × (navigate suggests settings ascii session waiting tests
      ≡ ok (send_all suggests settings ascii session tests, f'))
    × (f'.termination_reset_pending ≡ true)
    × (f'.session_resets ≡ 0)
    × (f'.tests_since_last_reset ≡ 2)
navigate-send_all_example =
    navigate-send_all suggests settings ascii session waiting tests interval_is_one refl tests_avoid
