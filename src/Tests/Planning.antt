-- ===== src/Tests/Planning.antt =====
-- Follow-ups: the witnesses of the planner's theorems, and runs.
use mathlib.Core.List.{Memᴰ}
use fuzzing_framework.Prelude.{
  ◌+◌, ◌≤◌, String, ◌≡◌, ◌≢◌, refl, none, some, List, [], ◌∷◌, arith, eq_iff, true, is_some, sym,
  ap, ◌∙◌,
}
use fuzzing_framework.Prelude.Int.{pos}
use fuzzing_framework.Result.{ok}
use fuzzing_framework.Dict.{get, put}
use fuzzing_framework.Protocol.Model.{Block, block, Fields, int, uint_type, w8}
use fuzzing_framework.Protocol.Resolve.{Counters}
use fuzzing_framework.Planner.{
  Setting, Planner, Handler, Spec, copy, literal, dict, one, plan, build_fields,
}
use fuzzing_framework.Planner.Once.{FireOnce, plan_all, count_all, has_fired, plan_all_once}
use fuzzing_framework.Planner.Context.{FromContext, sets, build_fields-sets}
use fuzzing_framework.Tests.Samples.{sample_runtime, ascii}

-- A request is a command and a token of the context; a response is one byte.
abbrev token : Block
token = record (block "token" (uint_type w8)) { from_context = some "session_token" }

abbrev command : String
command = "command"

abbrev request : List Block
request = block "command" (uint_type w8) ∷ token ∷ []

abbrev copied : List (String × Spec)
copied =
    ("command", literal (int (pos 9)))
    ∷ (
      "token",
      copy (record { field = "code"; extract_bits = none; transform = none; operation = none }),
    )
    ∷ []

abbrev greet : Handler
greet = record {
  name = some "greet";
  once_per_reset = true;
  matching = ("code", one (int (pos 5))) ∷ [];
  set_fields = some (dict copied);
  next_fields = none;
  next_message = none;
}

abbrev setting : Setting
setting = record {
  codec = ascii;
  zlib = record { crc = λ bs. 0; adler = λ bs. 0 };
  runtime = sample_runtime;
  env = record { now = 0; urandom = λ n size. [] };
  request_model = request;
  response_model = block "code" (uint_type w8) ∷ [];
  handlers = greet ∷ [];
}

abbrev counters : Counters
counters = record { sequence_counter = 0; draws = 0 }

abbrev planner : Planner
planner = record { fired_handlers = []; counters = counters }

-- The response 5 is answered by 9 and the copied 5.
plan_greets :
    (plan setting (some (5 ∷ [])) planner).0
    ≡ ok (record { payload = 9 ∷ 5 ∷ []; handler = "greet" } ∷ [])
unfolding plan get put is_some
plan_greets = refl

greet-FireOnce : FireOnce "greet" setting.handlers
greet-FireOnce = (λ e. refl, tt)

plan_all_once_example :
    count_all "greet" (plan_all setting (some (5 ∷ []) ∷ none ∷ some (5 ∷ []) ∷ []) planner).0
      + has_fired "greet" planner
    ≤ 1
plan_all_once_example =
    plan_all_once "greet" setting greet-FireOnce (some (5 ∷ []) ∷ none ∷ some (5 ∷ []) ∷ []) planner

token_is_named : token.name ≢ ""
token_is_named e = absurd (ground (arith, eq_iff "token" ""))

token-FromContext : FromContext token.name request
token-FromContext b (Memᴰ.head same) named =
    let clash : command ≡ token.name = sym (ap (λ (x : Block). x.name) same) ∙ named in
    absurd (ground (arith, eq_iff command token.name))
token-FromContext b (Memᴰ.tail (Memᴰ.head same)) named =
    ap (λ (x : Block). is_some x.from_context) same ∙ unfold is_some in refl
token-FromContext b (Memᴰ.tail (Memᴰ.tail m)) named = elim m [ ]

abbrev response : Fields
unfolding put
response = put "code" (int (pos 5)) []

built : build_fields setting copied response counters ≡ ok (some (9 ∷ 5 ∷ []), counters)
unfolding build_fields get put is_some
built = refl

build_fields-sets_example : sets token.name copied ≡ true
build_fields-sets_example =
    build_fields-sets setting copied response counters counters token (Memᴰ.tail (Memᴰ.head refl))
      token_is_named token-FromContext built
