-- ===== src/Stateful/Found.antt =====
-- What `find_seed_for_message_type` returns, and what sending it does.
use mathlib.Core.List.{Memᴰ}
use text.Mathlib.Text.{◌==◌ as same_text}
use fuzzing_framework.Prelude.{ℕ, ◌≡◌, String, true, some, List}
use fuzzing_framework.Prelude.Int.{ℤ}
use fuzzing_framework.Result.{Result, ok}
use fuzzing_framework.Dict.{get}
use fuzzing_framework.Protocol.Model.{int, Fields}
use fuzzing_framework.Protocol.Parse.{Codec, parse}
use fuzzing_framework.Stateful.Session.{Session, type_of_command}
use fuzzing_framework.Stateful.Choice.{carries}

-- What a seed that is found carries.
abbrev IsFound : Codec → Session → String → ℤ → List (List ℕ) → List ℕ → Type 0
IsFound codec s field command seeds seed =
    Memᴰ seed seeds
    × (fields : Fields) × (parse codec s.data_model seed ≡ ok fields)
    × (carries field command fields ≡ true)

-- No other message type in front of this one has its command value.
abbrev pub IsFirst : Session → String → Type 0
IsFirst s k =
    (c : ℤ)
    → get k s.message_type_to_command ≡ some c
    → type_of_command s.message_type_to_command (int c) ≡ some k
