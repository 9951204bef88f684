-- ===== src/Planner/Context.antt =====
-- A follow-up is serialized without the protocol context.
use mathlib.Core.List.{Memᴰ}
use text.Mathlib.Text.{◌==◌ as same_text}
use fuzzing_framework.Prelude.{
  ℕ, String, ◌≡◌, ◌≢◌, refl, sym, ap, ◌∙◌, Bool, true, false, ◌||◌, none, some, List, [], ◌∷◌,
  arith, eq_iff, is_some, Bool-cases, inl, inr, if◌then◌else◌,
}
use fuzzing_framework.Result.{Result, ok, err, ◌>>=◌, >>=-eq-ok}
use fuzzing_framework.Dict.{get, put, get-put}
use fuzzing_framework.Protocol.Model.{Value, Block, Fields, Error}
use fuzzing_framework.Protocol.Parse.{Codec}
use fuzzing_framework.Protocol.Checksum.{Zlib}
use fuzzing_framework.Protocol.Resolve.{
  Surroundings, Counters, is_given, resolve_missing, resolve_field, resolve_blocks,
  from_context_value, serialize, serialize_resolved, build_default_fields,
}
use fuzzing_framework.Protocol.Resolve.Priority.{resolve_field-changes}
use fuzzing_framework.Transform.Loops.{Runtime}
use fuzzing_framework.Planner.{
  Setting, Spec, set_all, resolve_field_value, bytes_of, build_fields, counters_after,
}

-- Every block of the name wants a value of the context.
abbrev pub FromContext : String → List Block → Type 0
FromContext k bs = (b : Block) → Memᴰ b bs → b.name ≡ k → is_some b.from_context ≡ true

module _ (runtime : Runtime) (env : Surroundings) (k : String) (named : k ≢ "") where
  -- without a context such a block raises
  resolve_field-raises :
      (b : Block) (fields fields' : Fields) (c c' : Counters)
      → b.name ≡ k
      → is_some b.from_context ≡ true
      → is_given (get k fields) ≡ false
      → resolve_field runtime env none b fields c ≢ ok (fields', c')
  unfolding resolve_field resolve_missing from_context_value is_some
  resolve_field-raises b fields fields' c c' same wants missing e =
      absurd (ground (arith, eq_iff b.name "", ap (λ j. is_given (get j fields)) same))

  resolve_field-other :
      (b : Block) (fields fields' : Fields) (c c' : Counters)
      → b.name ≢ k
      → resolve_field runtime env none b fields c ≡ ok (fields', c')
      → get k fields' ≡ get k fields
  resolve_field-other b fields fields' c c' other e =
      elim (resolve_field-changes runtime env none b fields fields' c c' e) [
        | inl same ↦ ap (get k) same
        | inr (missing, v, same) ↦
            ap (get k) same ∙ get-put b.name k v fields ∙ ground (arith, eq_iff b.name k)
      ]

  resolve_blocks_given :
      (bs : List Block) (fields fields' : Fields) (c c' : Counters) (b : Block)
      → Memᴰ b bs
      → b.name ≡ k
      → FromContext k bs
      → resolve_blocks runtime env none bs fields c ≡ ok (fields', c')
      → is_given (get k fields) ≡ true
  unfolding resolve_blocks
  resolve_blocks_given [] fields fields' c c' b m same all e = elim m [ ]
  resolve_blocks_given (a ∷ bs) fields fields' c c' b m same all e =
      let ((f, d), one, rest) =
        >>=-eq-ok (resolve_field runtime env none a fields c)
          (λ (p : Fields × Counters). resolve_blocks runtime env none bs p.0 p.1) e in
      elim (Bool-cases (is_given (get k fields))) [
        | inl given ↦ given
        | inr missing ↦ elim (Bool-cases (same_text a.name k)) [
          | inl here ↦
              let name : a.name ≡ k = ground (arith, eq_iff a.name k) in
              absurd
                (resolve_field-raises a fields f c d name (all a (Memᴰ.head refl) name) missing one)
          | inr there ↦ elim m [
            | Memᴰ.head at ↦
                let name : a.name ≡ k = sym (ap (λ (x : Block). x.name) at) ∙ same in
                absurd (ground (arith, eq_iff a.name k))
            | Memᴰ.tail n ↦
                let later =
                  resolve_blocks_given bs f fields' d c' b n same (λ x i. all x (Memᴰ.tail i))
                    rest in
                sym (
                  ap is_given (
                    resolve_field-other a fields f c d
                      (λ i. absurd (ground (arith, eq_iff a.name k))) one))
                ∙ later
          ]
        ]
      ]

-- The names of a handler's fields.
unfoldable pub sets : String → List (String × Spec) → Bool
sets k [] = false
sets k ((name, spec) ∷ specs) = same_text name k || sets k specs

set_all-other :
    (runtime : Runtime) (k : String) (specs : List (String × Spec)) (parsed fields fields' : Fields)
    → sets k specs ≡ false
    → set_all runtime specs parsed fields ≡ ok fields'
    → get k fields' ≡ get k fields
unfolding set_all sets
set_all-other runtime k [] parsed fields fields' unset e = ap (get k) (cc e)
set_all-other runtime k ((name, spec) ∷ specs) parsed fields fields' unset e =
    let (v, one, rest) =
      >>=-eq-ok (resolve_field_value runtime spec parsed)
        (λ v. set_all runtime specs parsed (put name v fields)) e in
    set_all-other runtime k specs parsed (put name v fields) fields' (ground arith) rest
    ∙ get-put name k v fields
    ∙ ground (arith, eq_iff name k)

skipped_or_other :
    (k j : String) (b : Bool) (v : Value) (d : Fields)
    → (j ≡ k → b ≡ true)
    → get k (if b then d else put j v d) ≡ get k d
skipped_or_other k j true v d h = refl
skipped_or_other k j false v d h = get-put j k v d ∙ ground (arith, eq_iff j k, h)

build_default_fields-other :
    (k : String) (bs : List Block) (defaults : Fields)
    → FromContext k bs
    → get k (build_default_fields bs defaults) ≡ get k defaults
unfolding build_default_fields
build_default_fields-other k [] defaults all = refl
build_default_fields-other k (b ∷ bs) defaults all =
    build_default_fields-other k bs _ (λ x i. all x (Memᴰ.tail i))
    ∙ skipped_or_other k b.name _ _ defaults (λ i. ground (arith, all b (Memᴰ.head refl) i))

serialize-needs :
    (codec : Codec) (zlib : Zlib) (runtime : Runtime) (env : Surroundings) (bs : List Block)
    (fields : Fields) (c : Counters) (b : Block) {message : List ℕ} {c' : Counters}
    → Memᴰ b bs
    → b.name ≢ ""
    → FromContext b.name bs
    → serialize codec zlib runtime env none bs fields c ≡ ok (message, c')
    → is_given (get b.name fields) ≡ true
unfolding serialize
serialize-needs codec zlib runtime env bs fields c b m named all e =
    let ((f, d), one, rest) =
      >>=-eq-ok (resolve_blocks runtime env none bs fields c)
        (λ (p : Fields × Counters).
          serialize_resolved codec zlib bs p.0 >>= λ message. ok (message, p.1))
        e in
    resolve_blocks_given runtime env b.name named bs fields f c d b m refl all one

bytes_of-eq-some :
    (r : Result Error (List ℕ × Counters)) {payload : List ℕ}
    → bytes_of r ≡ some payload
    → (found : List ℕ × Counters) × (r ≡ ok found)
bytes_of-eq-some (ok found) e = (found, refl)
bytes_of-eq-some (err x) e = cc

-- Where a named block of the request model takes its value from the context, and so does every block
-- of its name, only a handler that sets this field itself makes a follow-up.
pub build_fields-sets :
    (s : Setting) (specs : List (String × Spec)) (parsed : Fields) (c c' : Counters) (b : Block)
    {payload : List ℕ}
    → Memᴰ b s.request_model
    → b.name ≢ ""
    → FromContext b.name s.request_model
    → build_fields s specs parsed c ≡ ok (some payload, c')
    → sets b.name specs ≡ true
unfolding build_fields
build_fields-sets s specs parsed c c' b {payload} m named all e =
    let defaults = build_default_fields s.request_model [] in
    let (fields, one, rest) =
      >>=-eq-ok (set_all s.runtime specs parsed defaults)
        (λ fields. ok (
          bytes_of (serialize s.codec s.zlib s.runtime s.env none s.request_model fields c),
          counters_after s.runtime s.env none s.request_model fields c,
        ))
        e in
    let written = serialize s.codec s.zlib s.runtime s.env none s.request_model fields c in
    let (found, same) = bytes_of-eq-some written {payload = payload} (cc rest) in
    let given =
      serialize-needs s.codec s.zlib s.runtime s.env s.request_model fields c b m named all same in
    elim (Bool-cases (sets b.name specs)) [
      | inl set ↦ set
      | inr unset ↦
          let kept =
            set_all-other s.runtime b.name specs parsed defaults fields unset one
            ∙ build_default_fields-other b.name s.request_model [] all in
          let nothing : is_given (get b.name []) ≡ true = sym (ap is_given kept) ∙ given in
          absurd (unfold get in cc nothing)
    ]
