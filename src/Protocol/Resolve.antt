-- ===== src/Protocol/Resolve.antt =====
-- `_resolve_field_values`, `_generate_value`, `serialize` and `build_default_fields`.
pub mod Priority
use text.Mathlib.Text.{◌==◌ as same_text}
use fuzzing_framework.Prelude.{
  ℕ, suc, ◌+◌, String, Bool, true, false, ◌||◌, Option, none, some, List, [], ◌∷◌, is_some,
  if◌then◌else◌,
}
use fuzzing_framework.Prelude.Int.{ℤ, pos}
use fuzzing_framework.Result.{Result, ok, err, ◌>>=◌, map_err}
use fuzzing_framework.Dict.{Dict, get, put}
use fuzzing_framework.Protocol.Model.{
  Value, null, int, bytes, str, Generator, unix_timestamp, sequence, other_generator, random_bytes,
  Transform, Block, Fields, Error, no_context, no_context_key, in_field, get_default_value,
}
use fuzzing_framework.Protocol.Parse.{Codec}
use fuzzing_framework.Protocol.Serialize.{default_of, serialize_fields_to_bytes}
use fuzzing_framework.Protocol.AutoFix.{auto_fix_fields}
use fuzzing_framework.Protocol.Checksum.{Zlib, is_checksum_field, serialize_with_checksums}
use fuzzing_framework.Transform.Loops.{Runtime, as_value, apply_transforms}

-- What the parser takes from its surroundings: the clock, and the bytes that the n-th call of
-- `os.urandom` returns for a size.
pub record Surroundings : Type 0 where
  pub now : ℕ
  pub urandom : ℕ → ℕ → List ℕ

-- `_sequence_counter` of the parser (0 before its first use), and the number of `os.urandom` calls.
pub record Counters : Type 0 where
  pub sequence_counter : ℕ
  pub draws : ℕ

-- `_generate_value`; a size that is no number gives no bytes.
unfoldable pub generate_value : Surroundings → Generator → Block → Counters → Value × Counters
unfolding get_default_value
generate_value env unix_timestamp b c = (int (pos env.now), c)
generate_value env sequence b c =
    (int (pos (c.sequence_counter + 1)), record c { sequence_counter = c.sequence_counter + 1 })
generate_value env (random_bytes none) b c = (bytes [], c)
generate_value env (random_bytes (some n)) b c =
    (bytes (env.urandom c.draws n), record c { draws = c.draws + 1 })
generate_value env other_generator b c = (default_of b, c)

-- `if name in resolved and resolved[name] is not None`
abbrev pub is_given : Option Value → Bool
is_given none = false
is_given (some null) = false
is_given (some v) = true

-- `if 'transform' in block: …`
abbrev transformed : Runtime → Value → Option (List (Option Transform)) → Result Error Value
transformed runtime v none = ok v
transformed runtime v (some ts) = apply_transforms runtime v ts >>= as_value

-- The value that the context holds for the key; `None` is no value.
abbrev found_value : Runtime → Option Value → Option (List (Option Transform)) → Result Error Value
found_value runtime none ts = err no_context_key
found_value runtime (some null) ts = err no_context_key
found_value runtime (some v) ts = transformed runtime v ts

-- The branch for `from_context`.
unfoldable pub from_context_value :
    Runtime → Option Fields → String → Option (List (Option Transform)) → Result Error Value
unfolding apply_transforms
from_context_value runtime none key ts = err no_context
from_context_value runtime (some context) key ts = found_value runtime (get key context) ts

-- The branches for a field without a value: the context, then the generator.
unfoldable pub resolve_missing :
    Runtime
    → Surroundings
    → Option Fields
    → Block
    → Fields
    → Counters
    → Result Error (Fields × Counters)
unfolding from_context_value generate_value
resolve_missing runtime env context b fields c = elim b.from_context [
  | some key ↦ do
    v ← from_context_value runtime context key b.transform
    ok (put b.name v fields, c)
  | none ↦ elim b.generate [
    | some g ↦ let (v, c') = generate_value env g b c in ok (put b.name v fields, c')
    | none ↦ ok (fields, c)
  ]
]

-- One round of the loop of `_resolve_field_values`; a block without a name is passed over.
unfoldable pub resolve_field :
    Runtime
    → Surroundings
    → Option Fields
    → Block
    → Fields
    → Counters
    → Result Error (Fields × Counters)
unfolding resolve_missing
resolve_field runtime env context b fields c =
    if same_text b.name "" || is_given (get b.name fields)
    then ok (fields, c)
    else resolve_missing runtime env context b fields c

unfoldable pub resolve_blocks :
    Runtime
    → Surroundings
    → Option Fields
    → List Block
    → Fields
    → Counters
    → Result Error (Fields × Counters)
unfolding resolve_field
resolve_blocks runtime env context [] fields c = ok (fields, c)
resolve_blocks runtime env context (b ∷ bs) fields c = do
  (fields', c') ← resolve_field runtime env context b fields c
  resolve_blocks runtime env context bs fields' c'

-- `any(block.get('is_checksum') or block.get('checksum_algorithm') for block in self.blocks)`
unfoldable pub has_checksums : List Block → Bool
unfolding is_checksum_field
has_checksums [] = false
has_checksums (b ∷ bs) = is_checksum_field b || has_checksums bs

-- `serialize` behind `_resolve_field_values`
unfoldable pub serialize_resolved : Codec → Zlib → List Block → Fields → Result Error (List ℕ)
unfolding has_checksums serialize_with_checksums auto_fix_fields serialize_fields_to_bytes
serialize_resolved codec zlib blocks fields =
    if has_checksums blocks then serialize_with_checksums codec zlib blocks fields else (do
      fixed ← auto_fix_fields codec blocks fields
      serialize_fields_to_bytes codec blocks fixed)

-- `serialize`; the counters come back beside the bytes.
unfoldable pub serialize :
    Codec
    → Zlib
    → Runtime
    → Surroundings
    → Option Fields
    → List Block
    → Fields
    → Counters
    → Result Error (List ℕ × Counters)
unfolding resolve_blocks serialize_resolved
serialize codec zlib runtime env context blocks fields c = do
  (resolved, c') ← resolve_blocks runtime env context blocks fields c
  message ← serialize_resolved codec zlib blocks resolved
  ok (message, c')

-- `block.get('default')`, or the type's default where that gives `None`
abbrev filled_default : Block → Value
filled_default b = elim b.default [
  | none ↦ get_default_value b.type
  | some v ↦ elim v [ null ↦ get_default_value b.type | v' ↦ v' ]
]

-- `build_default_fields`
unfoldable pub build_default_fields : List Block → Fields → Fields
unfolding get_default_value
build_default_fields [] defaults = defaults
build_default_fields (b ∷ bs) defaults = build_default_fields bs (
    if same_text b.name "" || is_some b.from_context || is_some b.generate
    then defaults
    else put b.name (filled_default b) defaults)
