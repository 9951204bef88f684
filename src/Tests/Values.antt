-- ===== src/Tests/Values.antt =====
-- Field values: the witnesses of the theorems on how they are found.
use mathlib.Core.List.{Memᴰ}
use fuzzing_framework.Prelude.{◌≡◌, ◌≢◌, refl, Option, some, [], ◌∷◌, arith, eq_iff, true}
use fuzzing_framework.Prelude.Int.{pos}
use fuzzing_framework.Result.{ok}
use fuzzing_framework.Dict.{get, put}
use fuzzing_framework.Protocol.Model.{Value, null, Block, block, Fields, int, uint_type, w32}
use fuzzing_framework.Protocol.Resolve.{Surroundings, Counters, is_given, resolve_blocks}
use fuzzing_framework.Protocol.Resolve.Priority.{resolve_blocks-keeps, resolve_blocks-fills}
use fuzzing_framework.Tests.Samples.{sample_runtime, header, header_fields}

abbrev surroundings : Surroundings
surroundings = record { now = 5; urandom = λ n size. [] }

abbrev first_counters : Counters
first_counters = record { sequence_counter = 0; draws = 0 }

-- What the bootstrap has left in the context.
abbrev context : Option Fields
context = some (("session_token", int (pos 7)) ∷ [])

abbrev token : Block
token = record (block "token" (uint_type w32)) { from_context = some "session_token" }

abbrev resolved : Fields
unfolding put
resolved = put "token" (int (pos 7)) header_fields

resolve_token :
    resolve_blocks sample_runtime surroundings context (token ∷ header) header_fields first_counters
    ≡ ok (resolved, first_counters)
unfolding resolve_blocks get put
resolve_token = refl

kind_is_given : is_given (get "kind" header_fields) ≡ true
unfolding get
kind_is_given = refl

resolve_blocks-keeps_example : get "kind" resolved ≡ get "kind" header_fields
resolve_blocks-keeps_example =
    resolve_blocks-keeps sample_runtime surroundings context (token ∷ header) header_fields resolved
      first_counters first_counters "kind" kind_is_given resolve_token

token_is_named : token.name ≢ ""
token_is_named e = absurd (ground (arith, eq_iff "token" ""))

resolve_blocks-fills_example : (v : Value) × (get "token" resolved ≡ some v) × (v ≢ null)
resolve_blocks-fills_example =
    resolve_blocks-fills sample_runtime surroundings context (token ∷ header) header_fields resolved
      first_counters first_counters token "session_token" (Memᴰ.head refl) token_is_named refl
      resolve_token
