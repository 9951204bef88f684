-- ===== src/Tests/Navigation.antt =====
-- Navigation: the witnesses of the search's theorems, and runs.
use mathlib.Core.List.{Memᴰ}
use fuzzing_framework.Prelude.{String, ◌≡◌, ◌≢◌, refl, none, some, List, [], ◌∷◌, arith, eq_iff}
use fuzzing_framework.Stateful.Session.{Transition}
use fuzzing_framework.Navigator.{find_path, find_path_to_state}
use fuzzing_framework.Navigator.Routes.{Route, stay, onward, find_path_sound}
use fuzzing_framework.Navigator.Message.{find_path_to_state_sound}
use fuzzing_framework.Navigator.Complete.{find_path_complete}
use fuzzing_framework.Tests.Samples.{transition}

abbrev connect : Transition
connect = transition "INIT" "OPEN" "CONNECT"

abbrev close : Transition
close = transition "OPEN" "DONE" "CLOSE"

abbrev steps : List Transition
steps = connect ∷ transition "OPEN" "OPEN" "DATA" ∷ close ∷ []

abbrev init : String
init = "INIT"

abbrev done : String
done = "DONE"

path_to_done : find_path steps init done ≡ some (connect ∷ close ∷ [])
unfolding find_path
path_to_done = refl

find_path_sound_example : Route steps (some init) (connect ∷ close ∷ []) (some done)
find_path_sound_example = find_path_sound steps init done path_to_done

init_is_not_done : init ≢ done
init_is_not_done e = absurd (ground (arith, eq_iff init done))

find_path_complete_example : (q : List Transition) × (find_path steps init done ≡ some q)
find_path_complete_example = find_path_complete steps init done init_is_not_done (
    onward (connect ∷ []) close (onward [] connect stay (Memᴰ.head refl))
      (Memᴰ.tail (Memᴰ.tail (Memᴰ.head refl))))

message_to_done : find_path_to_state none steps init done ≡ some "CONNECT"
unfolding find_path_to_state
message_to_done = refl

find_path_to_state_sound_example :
    (t : Transition) × (p : List Transition) × Route steps (some init) (t ∷ p) (some done)
    × Memᴰ t steps
    × (t.from_state ≡ some init)
    × (t.message_type ≡ some "CONNECT")
find_path_to_state_sound_example =
    find_path_to_state_sound none steps init done "CONNECT" init_is_not_done message_to_done

-- The same machine with its messages under the key `message`.
abbrev shorthand : Transition → Transition
shorthand t = record t { message_type = none; message = t.message_type }

-- The path is found, and no message is returned.
no_message_by_shorthand :
    find_path_to_state none (shorthand connect ∷ shorthand close ∷ []) init done ≡ none
unfolding find_path_to_state
no_message_by_shorthand = refl
