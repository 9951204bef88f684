-- ===== src/Tests/Samples.antt =====
-- Small protocols and state machines.
use fuzzing_framework.Prelude.{
  ℕ, String, none, some, List, [], ◌∷◌, false, ◌==◌, ◌&&◌, if◌then◌else◌,
}
use fuzzing_framework.Prelude.Int.{pos, negsuc, eq_ℤ}
use fuzzing_framework.Result.{Result, ok, err}
use fuzzing_framework.Transform.Loops.{Number, whole, real, Runtime}
use fuzzing_framework.Protocol.Model.{
  Block, block, Fields, int, bytes, bits_type, bytes_type, uint_type, int_type, w8, w16, little,
  code, Error, outside_model,
}
use fuzzing_framework.Protocol.Parse.{Codec, plain}
use fuzzing_framework.Stateful.Session.{Transition, StateModel, Session}

-- Every text is encoded by its code points.
abbrev pub ascii : Codec
ascii = record { encode = λ e t. some t; decode = λ e bs. plain bs; show = λ v. [] }

abbrev pub bit_block : String → ℕ → Block
bit_block name n = record (block name bits_type) { size = some n }

-- 3 bits and 7 bits, which share a byte with the next field's padding, then whole bytes
abbrev pub header : List Block
header =
    bit_block "version" 3
    ∷ bit_block "kind" 7
    ∷ record (block "id" (uint_type w16)) { endian = little }
    ∷ block "delta" (int_type w8)
    ∷ record (block "tag" bytes_type) { size = some 3 }
    ∷ []

abbrev pub header_fields : Fields
header_fields =
    ("version", int (pos 5))
    ∷ ("kind", int (pos 200))
    ∷ ("id", int (pos 0x1234))
    ∷ ("delta", int (negsuc 1))
    ∷ ("tag", bytes (7 ∷ []))
    ∷ []

abbrev pub commands : List Block
commands =
    record (block "command" (uint_type w8)) {
      values = some ((code (pos 1), "CONNECT") ∷ (code (pos 2), "DATA") ∷ []);
    }
    ∷ []

abbrev pub transition : String → String → String → Transition
transition from to message = record {
  from_state = some from;
  to_state = some to;
  message_type = some message;
  message = none;
  trigger = none;
  expected_response = none;
}

abbrev pub machine : StateModel
machine = record {
  initial_state = some "INIT";
  states = "INIT" ∷ "OPEN" ∷ [];
  transitions = transition "INIT" "OPEN" "CONNECT" ∷ transition "OPEN" "OPEN" "DATA" ∷ [];
}

abbrev pub session : Session
session = record {
  state_model = machine;
  data_model = commands;
  response_model = none;
  current_state = "INIT";
  state_history = [];
  coverage_offset = [];
  transition_offset = [];
  resumed_from_offsets = false;
  has_new_activity = false;
  message_type_field = some "command";
  message_type_to_command = ("CONNECT", pos 1) ∷ ("DATA", pos 2) ∷ [];
}

-- 1.5, 251.5 and 252.5 as the 64 bits of a float
abbrev pub one_and_a_half : ℕ
one_and_a_half = 0x3FF8000000000000

abbrev pub first_sum : ℕ
first_sum = 0x406F700000000000

abbrev pub second_sum : ℕ
second_sum = 0x406F900000000000

-- The sums 250 + 1.5 and 251.5 + 1.
abbrev sum_of : Number → Number → Result Error ℕ
sum_of (whole v) (real x) =
    if eq_ℤ v (pos 250) && x == one_and_a_half then ok first_sum else err outside_model
sum_of (real x) (whole v) =
    if eq_ℤ v (pos 1) && x == first_sum then ok second_sum else err outside_model
sum_of _ _ = err outside_model

-- A runtime that reads no text as an integer and computes these sums of floats alone.
abbrev pub sample_runtime : Runtime
sample_runtime = record {
  read_int = λ t. none;
  is_zero = λ x. x == 0;
  add = sum_of;
  subtract = λ n c. err outside_model;
  remainder = λ n c. err outside_model;
}
