-- ===== src/Protocol/Resolve/Priority.antt =====
-- The order in which a field's value is looked for.
use mathlib.Core.List.{Memᴰ}
use fuzzing_framework.Prelude.{
  String, ◌≡◌, ◌≢◌, refl, sym, ap, ◌∙◌, subst, Option, none, some, List, [], ◌∷◌, arith, eq_iff,
  true, false, ◌||◌, inl, inr, ◌⊎◌, Bool-cases,
}
use text.Mathlib.Text.{◌==◌ as same_text}
use fuzzing_framework.Result.{Result, ok, ◌>>=◌, >>=-eq-ok}
use fuzzing_framework.Dict.{get, put, get-put}
use fuzzing_framework.Protocol.Model.{
  Value, null, int, bytes, str, Block, Fields, Error, Transform, Generator,
}
use fuzzing_framework.Protocol.Resolve.{
  Surroundings, Counters, is_given, generate_value, resolve_missing, resolve_field, resolve_blocks,
  from_context_value, found_value,
}
use fuzzing_framework.Transform.Loops.{
  Runtime, Number, whole, real, of_number, Transformed, as_value, apply_transforms, transform_all,
}

-- A given value is there and is not `None`.
given_value : (o : Option Value) → is_given o ≡ true → (v : Value) × (o ≡ some v) × (v ≢ null)
given_value none g = absurd (cc g)
given_value (some null) g = absurd (cc g)
given_value (some (int n)) g = (int n, refl, λ e. cc)
given_value (some (bytes n)) g = (bytes n, refl, λ e. cc)
given_value (some (str n)) g = (str n, refl, λ e. cc)

number_value-given :
    (n : Number) (t : Transformed) (v : Value)
    → of_number n ≡ t
    → as_value t ≡ ok v
    → is_given (some v) ≡ true
number_value-given (whole w) t v same e =
    let written : ◌≡◌ {A = Result Error Value} (ok (int w)) (ok v) = ap as_value same ∙ e in cc
number_value-given (real x) t v same e = absurd (cc (ap as_value same ∙ e))

-- A transform never gives `None` for a value that is there.
apply_transforms-given :
    (runtime : Runtime) (v v' : Value) (ts : List (Option Transform))
    → is_given (some v) ≡ true
    → (apply_transforms runtime v ts >>= as_value) ≡ ok v'
    → is_given (some v') ≡ true
unfolding apply_transforms
apply_transforms-given runtime (int v) v' ts g e =
    let (t, applied, last) =
      >>=-eq-ok (do n ← transform_all runtime (whole v) ts; ok (of_number n)) as_value e in
    let (n, found, same) =
      >>=-eq-ok (transform_all runtime (whole v) ts) (λ n. ok (of_number n)) applied in
    number_value-given n t v' (cc same) last
apply_transforms-given runtime null v' ts g e = ground arith
apply_transforms-given runtime (bytes b) v' ts g e = ground arith
apply_transforms-given runtime (str b) v' ts g e = ground arith

found_value-given :
    (runtime : Runtime) (o : Option Value) (ts : Option (List (Option Transform))) (v : Value)
    → found_value runtime o ts ≡ ok v
    → is_given (some v) ≡ true
found_value-given runtime none ts v e = cc
found_value-given runtime (some null) ts v e = cc
found_value-given runtime (some (int n)) none v e = ground arith
found_value-given runtime (some (bytes n)) none v e = ground arith
found_value-given runtime (some (str n)) none v e = ground arith
found_value-given runtime (some (int n)) (some ts) v e =
    apply_transforms-given runtime (int n) v ts refl e
found_value-given runtime (some (bytes n)) (some ts) v e =
    apply_transforms-given runtime (bytes n) v ts refl e
found_value-given runtime (some (str n)) (some ts) v e =
    apply_transforms-given runtime (str n) v ts refl e

from_context_value-given :
    (runtime : Runtime) (context : Option Fields) (key : String)
    (ts : Option (List (Option Transform))) (v : Value)
    → from_context_value runtime context key ts ≡ ok v
    → is_given (some v) ≡ true
unfolding from_context_value
from_context_value-given runtime none key ts v e = cc
from_context_value-given runtime (some context) key ts v e =
    found_value-given runtime (get key context) ts v e

module _ (runtime : Runtime) (env : Surroundings) (context : Option Fields) where
  -- what is written for a missing value is the field of the block
  resolve_missing-changes :
      (b : Block) (fields fields' : Fields) (c c' : Counters)
      → resolve_missing runtime env context b fields c ≡ ok (fields', c')
      → (fields' ≡ fields) ⊎ ((v : Value) × (fields' ≡ put b.name v fields))
  unfolding resolve_missing
  resolve_missing-changes b fields fields' c c' e = by_source b.from_context b.generate e
    where
      by_source :
          (key : Option String) (g : Option Generator)
          → let r : Result Error (Fields × Counters) = elim key [
            | some k ↦ do
              v ← from_context_value runtime context k b.transform
              ok (put b.name v fields, c)
            | none ↦ elim g [
              | some g ↦ let (v, c₁) = generate_value env g b c in ok (put b.name v fields, c₁)
              | none ↦ ok (fields, c)
            ]
          ] in
            r ≡ ok (fields', c')
            → (fields' ≡ fields) ⊎ ((v : Value) × (fields' ≡ put b.name v fields))
      by_source (some k) g h =
          let (v, found, same) =
            >>=-eq-ok (from_context_value runtime context k b.transform)
              (λ v. ok (put b.name v fields, c)) h in
          inr (v, cc)
      by_source none (some g) h = inr ((generate_value env g b c).0, cc)
      by_source none none h = inl cc

  -- a round writes the field of its block alone, and only where no value is given
  pub resolve_field-changes :
      (b : Block) (fields fields' : Fields) (c c' : Counters)
      → resolve_field runtime env context b fields c ≡ ok (fields', c')
      → (fields' ≡ fields)
        ⊎ ((is_given (get b.name fields) ≡ false) × (v : Value) × (fields' ≡ put b.name v fields))
  unfolding resolve_field
  resolve_field-changes b fields fields' c c' e =
      elim (Bool-cases (same_text b.name "" || is_given (get b.name fields))) [
        | inl skip ↦ inl (ground arith)
        | inr todo ↦ elim (resolve_missing-changes b fields fields' c c' (ground arith)) [
          | inl same ↦ inl same
          | inr (v, same) ↦ inr (ground arith, v, same)
        ]
      ]

  resolve_field-keeps :
      (b : Block) (fields fields' : Fields) (c c' : Counters) (k : String)
      → is_given (get k fields) ≡ true
      → resolve_field runtime env context b fields c ≡ ok (fields', c')
      → get k fields' ≡ get k fields
  resolve_field-keeps b fields fields' c c' k given e =
      elim (resolve_field-changes b fields fields' c c' e) [
        | inl same ↦ ap (get k) same
        | inr (missing, v, same) ↦
            ap (get k) same ∙ get-put b.name k v fields ∙ ground (arith, eq_iff b.name k)
      ]

  -- Resolving the fields, where it succeeds, leaves every value that is given and not `None` as it is: no
  -- context and no generator replaces it.
  pub resolve_blocks-keeps :
      (bs : List Block) (fields fields' : Fields) (c c' : Counters) (k : String)
      → is_given (get k fields) ≡ true
      → resolve_blocks runtime env context bs fields c ≡ ok (fields', c')
      → get k fields' ≡ get k fields
  unfolding resolve_blocks
  resolve_blocks-keeps [] fields fields' c c' k given e = ap (get k) (cc e)
  resolve_blocks-keeps (b ∷ bs) fields fields' c c' k given e =
      let ((f, d), one, rest) =
        >>=-eq-ok (resolve_field runtime env context b fields c)
          (λ (p : Fields × Counters). resolve_blocks runtime env context bs p.0 p.1) e in
      let first = resolve_field-keeps b fields f c d k given one in
      resolve_blocks-keeps bs f fields' d c' k (ap is_given first ∙ given) rest ∙ first

  resolve_missing-fills :
      (b : Block) (key : String) (fields fields' : Fields) (c c' : Counters)
      → b.from_context ≡ some key
      → resolve_missing runtime env context b fields c ≡ ok (fields', c')
      → is_given (get b.name fields') ≡ true
  unfolding resolve_missing
  resolve_missing-fills b key fields fields' c c' source e =
      let result : Fields × Counters = (fields', c') in
      let (v, found, same) =
        >>=-eq-ok (from_context_value runtime context key b.transform)
          (λ v. ok (put b.name v fields, c)) {b = result} (ground arith) in
      let given = from_context_value-given runtime context key b.transform v found in
      let written : fields' ≡ put b.name v fields = cc same in
      ap (λ f. is_given (get b.name f)) written
      ∙ ap is_given (get-put b.name b.name v fields)
      ∙ ground (arith, eq_iff b.name b.name)

  resolve_field-fills :
      (b : Block) (key : String) (fields fields' : Fields) (c c' : Counters)
      → b.name ≢ ""
      → b.from_context ≡ some key
      → resolve_field runtime env context b fields c ≡ ok (fields', c')
      → is_given (get b.name fields') ≡ true
  unfolding resolve_field
  resolve_field-fills b key fields fields' c c' named source e =
      elim (Bool-cases (is_given (get b.name fields))) [
        | inl given ↦
            let same : fields ≡ fields' = ground arith in
            ap (λ f. is_given (get b.name f)) (sym same) ∙ given
        | inr missing ↦
            resolve_missing-fills b key fields fields' c c' source
              (ground (arith, eq_iff b.name ""))
      ]

  resolve_blocks-given :
      (bs : List Block) (fields fields' : Fields) (c c' : Counters) (b : Block) (key : String)
      → Memᴰ b bs
      → b.name ≢ ""
      → b.from_context ≡ some key
      → resolve_blocks runtime env context bs fields c ≡ ok (fields', c')
      → is_given (get b.name fields') ≡ true
  unfolding resolve_blocks
  resolve_blocks-given [] fields fields' c c' b key m named source e = elim m [ ]
  resolve_blocks-given (a ∷ bs) fields fields' c c' b key (Memᴰ.head same) named source e =
      let ((f, d), one, rest) =
        >>=-eq-ok (resolve_field runtime env context a fields c)
          (λ (p : Fields × Counters). resolve_blocks runtime env context bs p.0 p.1) e in
      let first =
        resolve_field-fills b key fields f c d named source
          (subst (λ x. resolve_field runtime env context x fields c ≡ ok (f, d)) (sym same) one) in
      ap is_given (resolve_blocks-keeps bs f fields' d c' b.name first rest) ∙ first
  resolve_blocks-given (a ∷ bs) fields fields' c c' b key (Memᴰ.tail m) named source e =
      let ((f, d), one, rest) =
        >>=-eq-ok (resolve_field runtime env context a fields c)
          (λ (p : Fields × Counters). resolve_blocks runtime env context bs p.0 p.1) e in
      resolve_blocks-given bs f fields' d c' b key m named source rest

  -- Resolving the fields succeeds only if every named block that is filled from the context has a value
  -- in the result, which is not `None`.
  pub resolve_blocks-fills :
      (bs : List Block) (fields fields' : Fields) (c c' : Counters) (b : Block) (key : String)
      → Memᴰ b bs
      → b.name ≢ ""
      → b.from_context ≡ some key
      → resolve_blocks runtime env context bs fields c ≡ ok (fields', c')
      → (v : Value) × (get b.name fields' ≡ some v) × (v ≢ null)
  resolve_blocks-fills bs fields fields' c c' b key m named source e =
      given_value (get b.name fields')
        (resolve_blocks-given bs fields fields' c c' b key m named source e)
