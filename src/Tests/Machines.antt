-- ===== src/Tests/Machines.antt =====
-- State machines: the witnesses of the session's theorems, and runs.
use fuzzing_framework.Prelude.{◌+◌, ◌≡◌, ◌≢◌, refl, ◌⊎◌, none, [], ◌∷◌, arith, eq_iff}
use fuzzing_framework.Dict.{get, put}
use fuzzing_framework.Stateful.Session.{
  HistoryRecord, Session, update_state, reset_to_initial_state,
}
use fuzzing_framework.Stateful.Coverage.{count_of, get_state_coverage}
use fuzzing_framework.Stateful.Justified.{
  start, step, sent, reset, IsExtension, Run-IsExtension, IsRecorded, update_state-IsRecorded,
}
use fuzzing_framework.Stateful.Counting.{
  arrivals, one_if, is_there, offset_of, get_state_coverage-count,
}
use fuzzing_framework.Stateful.Departure.{first_move-coverage}
use fuzzing_framework.Tests.Samples.{ascii, session}

-- The session behind a CONNECT that passed.
abbrev opened : Session
opened = update_state ascii session (1 ∷ []) none "pass"

opened_state : opened.current_state ≡ "OPEN"
unfolding update_state get put
opened_state = refl

update_state-IsRecorded_example :
    (opened ≡ session) ⊎ ((r : HistoryRecord) × IsRecorded session opened r)
update_state-IsRecorded_example = update_state-IsRecorded ascii session (1 ∷ []) none "pass"

Run-IsExtension_example : IsExtension session (reset_to_initial_state opened)
Run-IsExtension_example =
    Run-IsExtension ascii (step (step start (sent (1 ∷ []) none "pass")) reset)

get_state_coverage-count_example :
    count_of "OPEN" (get_state_coverage opened)
    ≡ arrivals "OPEN" opened.state_history
      + one_if (is_there "OPEN" opened)
      + offset_of "OPEN" opened.coverage_offset
get_state_coverage-count_example = get_state_coverage-count opened "OPEN"

open_is_not_init : opened.current_state ≢ session.current_state
open_is_not_init e = absurd (ground (arith, opened_state, eq_iff "OPEN" "INIT"))

open_is_named : opened.current_state ≢ ""
open_is_named e = absurd (ground (arith, opened_state, eq_iff "OPEN" ""))

first_move-coverage_example :
    (count_of session.current_state (get_state_coverage opened) ≡ 0)
    × (count_of opened.current_state (get_state_coverage opened) ≡ 2)
unfolding offset_of
first_move-coverage_example =
    first_move-coverage ascii session (1 ∷ []) none "pass" refl open_is_not_init open_is_named
