-- ===== src/Planner.antt =====
-- core/engine/response_planner.py, `ResponsePlanner`: follow-up requests to a response.
pub mod Once
pub mod Context
use text.Mathlib.Text.{◌==◌ as same_text}
use fuzzing_framework.Prelude.{
  ℕ, String, Bool, true, false, ◌&&◌, ◌||◌, Option, none, some, List, [], ◌∷◌, ◌==◌, is_in,
  if◌then◌else◌,
}
use fuzzing_framework.Prelude.Int.{ℤ, pos, negsuc, eq_ℤ, shr_ℤ, low_bits}
use fuzzing_framework.Result.{Result, ok, err, ◌>>=◌, map_err}
use fuzzing_framework.Dict.{Dict, get, put}
use fuzzing_framework.Protocol.Model.{Value, null, int, bytes, str, Transform, Block, Fields, Error}
use fuzzing_framework.Protocol.Parse.{Codec, parse}
use fuzzing_framework.Protocol.Checksum.{Zlib, value_of}
use fuzzing_framework.Protocol.Resolve.{
  Surroundings, Counters, resolve_field, serialize, build_default_fields,
}
use fuzzing_framework.Transform.Loops.{Runtime, ordinary, as_value, apply_operation, pipeline}

-- `{"copy_from_response": …}`: the keys `extract_bits` (start and count), `transform` (`some none` is a
-- value that is no list) and the operation of the older form.
pub record Copy : Type 0 where
  pub field : String
  pub extract_bits : Option (ℕ × ℕ)
  pub transform : Option (Option (List (Option Transform)))
  pub operation : Option Transform

pub data Spec : Type 0 where
  literal : Value → Spec
  copy : Copy → Spec

-- The bits of a value that is an integer.
unfoldable pub extract : Option (ℕ × ℕ) → Value → Value
unfolding low_bits shr_ℤ
extract (some (start, count)) (int v) = int (pos (low_bits count (shr_ℤ v start)))
extract _ value = value

-- `_resolve_field_value`
unfoldable pub resolve_field_value : Runtime → Spec → Fields → Result Error Value
unfolding extract pipeline apply_operation
resolve_field_value runtime (literal v) parsed = ok v
resolve_field_value runtime (copy c) parsed =
    let value = extract c.extract_bits (value_of (get c.field parsed)) in
    elim c.transform [
      | some o ↦ elim o [
        | some ts ↦ pipeline runtime (ordinary value) ts >>= as_value
        | none ↦ ok value
      ]
      | none ↦ elim c.operation [
        | some t ↦
            apply_operation runtime (ordinary value) t.operation t.value t.bit_width >>= as_value
        | none ↦ ok value
      ]
    ]

-- What a handler gives for its fields: a dict, or something else that Python takes for true.
pub data FieldSpecs : Type 0 where
  no_dict : FieldSpecs
  dict : List (String × Spec) → FieldSpecs

-- An entry of `match`: a value, or a list of values.
pub data Expected : Type 0 where
  one : Value → Expected
  any_of : List Value → Expected

pub record Handler : Type 0 where
  pub name : Option String
  pub once_per_reset : Bool
  pub matching : List (String × Expected)
  pub set_fields : Option FieldSpecs
  pub next_fields : Option FieldSpecs
  pub next_message : Option FieldSpecs

unfoldable pub same_list : List ℕ → List ℕ → Bool
same_list [] [] = true
same_list (a ∷ xs) (b ∷ ys) = a == b && same_list xs ys
same_list _ _ = false

-- `==` of two values
unfoldable pub same_value : Value → Value → Bool
unfolding same_list
same_value null null = true
same_value (int v) (int w) = eq_ℤ v w
same_value (bytes a) (bytes b) = same_list a b
same_value (str a) (str b) = same_list a b
same_value _ _ = false

unfoldable pub is_among : Value → List Value → Bool
unfolding same_value
is_among v [] = false
is_among v (w ∷ ws) = same_value v w || is_among v ws

abbrev pub is_expected : Value → Expected → Bool
is_expected v (one w) = same_value v w
is_expected v (any_of ws) = is_among v ws

-- `_matches`
unfoldable pub matches : List (String × Expected) → Fields → Bool
unfolding is_among same_value
matches [] parsed = true
matches ((field, expected) ∷ rest) parsed =
    is_expected (value_of (get field parsed)) expected && matches rest parsed

-- `a or b` of the handler's field specifications
abbrev pub or_specs : Option FieldSpecs → Option FieldSpecs → Option FieldSpecs
or_specs none b = b
or_specs (some (dict [])) b = b
or_specs (some a) b = some a

-- `fields[field_name] = self._resolve_field_value(…)` over the specifications
unfoldable pub set_all : Runtime → List (String × Spec) → Fields → Fields → Result Error Fields
unfolding resolve_field_value
set_all runtime [] parsed fields = ok fields
set_all runtime ((name, spec) ∷ rest) parsed fields = do
  v ← resolve_field_value runtime spec parsed
  set_all runtime rest parsed (put name v fields)

-- The counters of the parser behind `serialize`, which may raise on the way.
unfoldable pub counters_after :
    Runtime → Surroundings → Option Fields → List Block → Fields → Counters → Counters
unfolding resolve_field
counters_after runtime env context [] fields c = c
counters_after runtime env context (b ∷ bs) fields c =
    elim (resolve_field runtime env context b fields c) [
      | err e ↦ c
      | ok found ↦ counters_after runtime env context bs found.0 found.1
    ]

-- What a planner is made of: the models, and the Python runtime that its parsers use.
pub record Setting : Type 0 where
  pub codec : Codec
  pub zlib : Zlib
  pub runtime : Runtime
  pub env : Surroundings
  pub request_model : List Block
  pub response_model : List Block
  pub handlers : List Handler

-- What changes: `_fired_handlers`, and the counters of the request parser.
pub record Planner : Type 0 where
  pub fired_handlers : List String
  pub counters : Counters

abbrev pub bytes_of : Result Error (List ℕ × Counters) → Option (List ℕ)
bytes_of (ok found) = some found.0
bytes_of (err e) = none

-- `_build_payload` once the specifications are a dict: what `_resolve_field_value` raises gets out,
-- what `serialize` raises does not. No context is passed to `serialize`.
unfoldable pub build_fields :
    Setting → List (String × Spec) → Fields → Counters → Result Error (Option (List ℕ) × Counters)
unfolding set_all counters_after serialize build_default_fields
build_fields s specs parsed c = do
  fields ← set_all s.runtime specs parsed (build_default_fields s.request_model [])
  ok (
    bytes_of (serialize s.codec s.zlib s.runtime s.env none s.request_model fields c),
    counters_after s.runtime s.env none s.request_model fields c,
  )

-- `_build_payload`
unfoldable pub build_payload :
    Setting → Handler → Fields → Counters → Result Error (Option (List ℕ) × Counters)
unfolding build_fields
build_payload s h parsed c = elim (or_specs (or_specs h.set_fields h.next_fields) h.next_message) [
  | none ↦ build_fields s [] parsed c
  | some specs ↦ elim specs [ no_dict ↦ ok (none, c) | dict specs ↦ build_fields s specs parsed c ]
]

-- A follow-up: the payload, and the handler's name.
pub record Followup : Type 0 where
  pub payload : List ℕ
  pub handler : String

-- `handler.get("name", "response_handler")`
abbrev pub handler_name : Handler → String
handler_name h = elim h.name [ none ↦ "response_handler" | some k ↦ k ]

-- What a round of the loop does: it passes over the handler, raises, or has tried to build a payload.
pub data Round : Type 0 where
  skipped : Round
  raised : Error → Round
  tried : Option (List ℕ) → Counters → Round

abbrev round_of : Result Error (Option (List ℕ) × Counters) → Round
round_of (err e) = raised e
round_of (ok found) = tried found.0 found.1

unfoldable pub consider : Setting → Handler → Fields → Planner → Round
unfolding matches build_payload is_in
consider s h parsed p =
    if h.once_per_reset && is_in (handler_name h) p.fired_handlers
    then skipped
    else if matches h.matching parsed
    then round_of (build_payload s h parsed p.counters)
    else skipped

-- `self._fired_handlers.add(handler_name)` for a handler that fires once
unfoldable pub fire : Handler → Counters → Planner → Planner
fire h c p = record {
  fired_handlers = if h.once_per_reset then handler_name h ∷ p.fired_handlers else p.fired_handlers;
  counters = c;
}

abbrev followup : List ℕ → Handler → Result Error (List Followup) → Result Error (List Followup)
followup payload h (err e) = err e
followup payload h (ok rest) = ok (record { payload = payload; handler = handler_name h } ∷ rest)

-- The loop of `plan`: the follow-ups or the exception, and the planner behind it.
unfoldable pub plan_handlers :
    Setting → List Handler → Fields → Planner → Result Error (List Followup) × Planner
unfolding consider fire
plan_handlers s [] parsed p = (ok [], p)
plan_handlers s (h ∷ hs) parsed p = elim (consider s h parsed p) [
  | skipped ↦ plan_handlers s hs parsed p
  | raised e ↦ (err e, p)
  | tried o c ↦ elim o [
    | none ↦ plan_handlers s hs parsed (record p { counters = c })
    | some payload ↦
        let (rest, p') = plan_handlers s hs parsed (fire h c p) in (followup payload h rest, p')
  ]
]

-- `plan`; no response, an empty one and one that does not parse have no follow-up.
unfoldable pub plan : Setting → Option (List ℕ) → Planner → Result Error (List Followup) × Planner
unfolding parse plan_handlers
plan s none p = (ok [], p)
plan s (some []) p = (ok [], p)
plan s (some (b ∷ bs)) p = elim (parse s.codec s.response_model (b ∷ bs)) [
  | err e ↦ (ok [], p)
  | ok parsed ↦ plan_handlers s s.handlers parsed p
]

-- `reset`
unfoldable pub reset : Planner → Planner
reset p = record p { fired_handlers = [] }
