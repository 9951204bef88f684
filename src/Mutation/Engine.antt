-- ===== src/Mutation/Engine.antt =====
-- `MutationEngine`: `_normalize_enabled`, `generate_test_case` and `_get_next_enumeration_test`.
use text.Mathlib.Text.{◌==◌}
use fuzzing_framework.Prelude.{
  ℕ, zero, suc, ◌+◌, leb, String, Bool, true, false, ◌||◌, Option, none, some, List, [], ◌∷◌, map,
  is_in, is_some, if◌then◌else◌,
}
use fuzzing_framework.Result.{Result, ok, err, ◌>>=◌}
use fuzzing_framework.Mutation.Draws.{Random, Failure, key_error, draw, get_at}
use fuzzing_framework.Mutation.Bytes.{
  mutate_bits, mutate_bytes, mutate_word, mutate_interesting, mutate_splice,
}
use fuzzing_framework.Mutation.Havoc.{mutate_havoc}

-- The keys of `self.mutators`.
abbrev pub mutator_names : List String
mutator_names = "bitflip" ∷ "byteflip" ∷ "arithmetic" ∷ "interesting" ∷ "havoc" ∷ "splice" ∷ []

-- `[name for name in enabled if name in self.mutators]`
unfoldable pub known_names : List String → List String
unfolding is_in
known_names [] = []
known_names (name ∷ enabled) =
    let rest = known_names enabled in if is_in name mutator_names then name ∷ rest else rest

abbrev pub or_available : List String → List String
or_available [] = mutator_names
or_available (name ∷ names) = name ∷ names

-- `_normalize_enabled`
unfoldable pub normalize_enabled : Option (List String) → List String
unfolding known_names
normalize_enabled none = mutator_names
normalize_enabled (some enabled) = or_available (known_names enabled)

-- `self.weights.get(name, 1)`
abbrev pub weight_of : String → ℕ
weight_of name =
    if name == "bitflip" || name == "byteflip" || name == "interesting"
    then 20
    else if name == "arithmetic" || name == "havoc"
    then 15
    else if name == "splice"
    then 10
    else 1

-- The mutation modes: an enumeration of one kind, the two random ones, and any other name, which
-- mutates bytes.
pub data MutationMode : Type 0 where
  enumeration structure_aware hybrid byte_level : MutationMode

-- A test case that the enumeration yields, and the structure-aware mutator: its result or an exception.
pub record Engine : Type 0 where
  pub seed_corpus : List (List ℕ)
  pub enabled_mutators : List String
  pub mutation_mode : MutationMode
  pub structure_aware_weight : ℕ
  pub structure_mutator : Option (ℕ → List ℕ → Option (List ℕ × ℕ))
  pub flip_ratio_bits : ℕ → ℕ
  pub flip_ratio_bytes : ℕ → ℕ
  pub havoc_max_size : ℕ
  pub fallback_on_parse_error : Bool

-- The iterator: what is left of the enumeration, whether it was found to be over, and the tests so far.
pub record Enumeration : Type 0 where
  pub iterator : Option (List (List ℕ))
  pub exhausted : Bool
  pub count : ℕ

-- `random.choices` with weights: the index that it takes.
pub record Weighted : Type 0 where
  pub index : ℕ → List ℕ → ℕ

module _ (r : Random) (w : Weighted) (engine : Engine) where
  -- `random.choices(self.enabled_mutators, weights=…)[0]`
  unfoldable pub choose_mutator : ℕ → Result Failure (String × ℕ)
  unfolding get_at
  choose_mutator n = do
    name ← get_at (w.index n (map weight_of engine.enabled_mutators)) engine.enabled_mutators
    ok (name, suc n)

  -- `self.mutators[mutator_name].mutate(data)`
  unfoldable pub mutate : String → ℕ → List ℕ → Result Failure (List ℕ × ℕ)
  unfolding mutate_bits mutate_bytes mutate_word mutate_interesting mutate_havoc mutate_splice
  mutate name n data' =
      if name == "bitflip"
      then mutate_bits r engine.flip_ratio_bits n data'
      else if name == "byteflip"
      then mutate_bytes r engine.flip_ratio_bytes n data'
      else if name == "arithmetic"
      then mutate_word r n data'
      else if name == "interesting"
      then mutate_interesting r n data'
      else if name == "havoc"
      then mutate_havoc r engine.havoc_max_size n data'
      else if name == "splice"
      then mutate_splice r engine.seed_corpus n data'
      else err key_error

  -- The byte-level loop of `generate_test_case`: the data and `applied_mutators`.
  unfoldable pub mutate_loop : ℕ → ℕ → List ℕ → Result Failure ((List ℕ × List String) × ℕ)
  unfolding choose_mutator mutate
  mutate_loop zero n data' = ok ((data', []), n)
  mutate_loop (suc num_mutations) n data' = do
    (name, n') ← choose_mutator n
    (mutated, n'') ← mutate name n' data'
    ((out, applied), n''') ← mutate_loop num_mutations n'' mutated
    ok ((out, name ∷ applied), n''')

  -- The choice between structure-aware and byte-level mutation.
  unfoldable pub use_structure_aware : ℕ → Result Failure (Bool × ℕ)
  unfolding draw is_some
  use_structure_aware n = elim engine.mutation_mode [
    | structure_aware ↦ ok (is_some engine.structure_mutator, n)
    | hybrid ↦
        if is_some engine.structure_mutator
        then (do (percent, n') ← draw r n 1 100; ok (leb percent engine.structure_aware_weight, n'))
        else ok (false, n)
    | enumeration ↦ ok (false, n)
    | byte_level ↦ ok (false, n)
  ]

  -- `self.structure_mutator.mutate(base_seed)`, where an exception is `none`.
  abbrev structured : ℕ → List ℕ → Option (List ℕ × ℕ)
  structured n data' = elim engine.structure_mutator [
    | none ↦ none
    | some structure ↦ structure n data'
  ]

  -- The part of `generate_test_case` that mutates bytes.
  unfoldable pub mutate_byte_level : ℕ → ℕ → List ℕ → Result Failure (List ℕ × ℕ)
  unfolding mutate_loop
  mutate_byte_level num_mutations n data' = do
    ((out, applied), n') ← mutate_loop num_mutations n data'
    ok (out, n')

  abbrev after_structured : Option (List ℕ × ℕ) → ℕ → ℕ → List ℕ → Result Failure (List ℕ × ℕ)
  after_structured (some mutated) num_mutations n data' = ok mutated
  after_structured none num_mutations n data' =
      if engine.fallback_on_parse_error
      then mutate_byte_level num_mutations n data'
      else ok (data', n)

  -- `generate_test_case` outside the enumeration modes.
  unfoldable pub generate_random : ℕ → ℕ → List ℕ → Result Failure (List ℕ × ℕ)
  unfolding use_structure_aware mutate_byte_level
  generate_random num_mutations n base_seed = do
    (structure, n') ← use_structure_aware n
    if structure
        then after_structured (structured n' base_seed) num_mutations n' base_seed
        else mutate_byte_level num_mutations n' base_seed

  -- One byte-level mutation, where there is no enumeration or it is over.
  unfoldable pub fall_back : ℕ → List ℕ → Result Failure (List ℕ × ℕ)
  unfolding choose_mutator mutate
  fall_back n data' = do (name, n') ← choose_mutator n; mutate name n' data'

  -- `_get_next_enumeration_test`; its call of itself ends in the first branch.
  unfoldable pub get_next_enumeration_test :
      Enumeration → ℕ → List ℕ → Result Failure ((List ℕ × ℕ) × Enumeration)
  unfolding fall_back
  get_next_enumeration_test e n seed = elim e.iterator [
    | none ↦ do out ← fall_back n seed; ok (out, e)
    | some tests ↦ if e.exhausted then (do out ← fall_back n seed; ok (out, e)) else elim tests [
      | [] ↦ do out ← fall_back n seed; ok (out, record e { exhausted = true })
      | test ∷ rest ↦ ok ((test, n), record e { iterator = some rest; count = e.count + 1 })
    ]
  ]

  -- `generate_test_case`
  unfoldable pub generate_test_case :
      Enumeration → ℕ → ℕ → List ℕ → Result Failure ((List ℕ × ℕ) × Enumeration)
  unfolding generate_random get_next_enumeration_test
  generate_test_case e num_mutations n base_seed = elim engine.mutation_mode [
    | enumeration ↦ get_next_enumeration_test e n base_seed
    | _ ↦ do out ← generate_random num_mutations n base_seed; ok (out, e)
  ]
