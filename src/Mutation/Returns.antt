-- ===== src/Mutation/Returns.antt =====
-- Mutating bytes never fails, whatever mutators are configured.
use text.Mathlib.Text.{◌==◌}
use fuzzing_framework.Prelude.{
  ℕ, zero, suc, ◌<◌, ◌≡◌, refl, sym, ap, subst, String, true, false, Option, none, some, List, [],
  ◌∷◌, arith, eq_iff, map, is_in, length, take, drop, All, All-append, All-take, All-drop, ltb,
  Bool-cases, inl, inr,
}
use fuzzing_framework.Result.{Result}
use fuzzing_framework.Protocol.BitString.{AreBytes}
use fuzzing_framework.Mutation.Draws.{Random, IsRandom, Failure}
use fuzzing_framework.Mutation.Bytes.{same_data, others, splice, splice_alternative, mutate_splice}
use fuzzing_framework.Mutation.Engine.{
  mutator_names, known_names, or_available, normalize_enabled, weight_of, Engine, Weighted,
  choose_mutator, mutate, mutate_loop,
}
use fuzzing_framework.Mutation.Yields.{
  Yields, ok-Yields, if-Yields, >>=-Yields, get_at-Yields, draw-Yields, choose-Yields,
}
use fuzzing_framework.Mutation.Kept.{
  KeepsIn, mutate_bits-Yields, mutate_bytes-Yields, mutate_word-Yields, mutate_interesting-Yields,
}
use fuzzing_framework.Mutation.Growth.{mutate_havoc-Yields}

-- A key of `self.mutators`.
abbrev pub IsKnown : String → Type 0
IsKnown name = is_in name mutator_names ≡ true

known_names-IsKnown : (enabled : List String) → All IsKnown (known_names enabled)
unfolding known_names
known_names-IsKnown [] = tt
known_names-IsKnown (name ∷ enabled) = elim (Bool-cases (is_in name mutator_names)) [
  | inl known ↦ rw known (known, known_names-IsKnown enabled)
  | inr unknown ↦ rw unknown (known_names-IsKnown enabled)
]

-- All six names, by evaluation.
names-IsKnown : All IsKnown mutator_names
unfolding is_in
names-IsKnown = (refl, (refl, (refl, (refl, (refl, (refl, tt))))))

-- What is enabled is never empty and names mutators only.
pub normalize_enabled-IsKnown :
    (enabled : Option (List String))
    → (0 < length (normalize_enabled enabled)) × All IsKnown (normalize_enabled enabled)
unfolding normalize_enabled
normalize_enabled-IsKnown none = (omega arith, names-IsKnown)
normalize_enabled-IsKnown (some enabled) =
    by_names (known_names enabled) (known_names-IsKnown enabled)
  where
    by_names :
        (names : List String)
        → All IsKnown names
        → (0 < length (or_available names)) × All IsKnown (or_available names)
    by_names [] h = (omega arith, names-IsKnown)
    by_names (name ∷ names) h = (omega arith, h)

-- The data is bytes.
abbrev pub GivesBytes : List ℕ × ℕ → Type 0
GivesBytes (out, n) = AreBytes out

gives_bytes :
    {P : List ℕ × ℕ → Type 0} (m : Result Failure (List ℕ × ℕ))
    → ((v : List ℕ × ℕ) → P v → GivesBytes v)
    → Yields P m
    → Yields GivesBytes m
gives_bytes m f (v, e, p) = (v, e, f v p)

same_text_comm : (a b : String) → (a == b) ≡ (b == a)
same_text_comm a b = ground (arith, eq_iff a b, eq_iff b a)

others-All :
    (P : List ℕ → Type 0) (data' : List ℕ) (corpus : List (List ℕ))
    → All P corpus
    → All P (others data' corpus)
unfolding others
others-All P data' [] h = tt
others-All P data' (s ∷ corpus) h = elim (Bool-cases (same_data s data')) [
  | inl same ↦ rw same (others-All P data' corpus h.1)
  | inr other ↦ rw other (h.0, others-All P data' corpus h.1)
]

module _ (r : Random) (is_random : IsRandom r) where
  splice-Yields :
      (n : ℕ) (xs other : List ℕ)
      → AreBytes xs
      → AreBytes other
      → Yields GivesBytes (splice r n xs other)
  unfolding splice
  splice-Yields n xs other h k =
      >>=-Yields _ _ (draw-Yields r is_random n 0 (length xs) (omega arith)) (λ p _.
        >>=-Yields _ _ (draw-Yields r is_random p.1 0 (length other) (omega arith)) (λ q _.
          ok-Yields _ _ (
            All-append _ (take p.0 xs) (drop q.0 other) (All-take _ p.0 xs h)
              (All-drop _ q.0 other k))))

  splice_alternative-Yields :
      (n : ℕ) (xs : List ℕ) (seeds : List (List ℕ))
      → AreBytes xs
      → All AreBytes seeds
      → Yields GivesBytes (splice_alternative r n xs seeds)
  unfolding splice_alternative
  splice_alternative-Yields n xs [] h k = ok-Yields _ _ h
  splice_alternative-Yields n xs (s ∷ seeds) h k =
      >>=-Yields _ _ (choose-Yields r is_random AreBytes n (s ∷ seeds) (omega arith) k)
        (λ other is_bytes. splice-Yields other.1 xs other.0 h is_bytes)

  mutate_splice-Yields :
      (corpus : List (List ℕ)) (n : ℕ) (xs : List ℕ)
      → All AreBytes corpus
      → AreBytes xs
      → Yields GivesBytes (mutate_splice r corpus n xs)
  unfolding mutate_splice
  mutate_splice-Yields corpus n xs k h =
      if-Yields _ (ltb (length corpus) 2) _ _ (λ _. ok-Yields _ _ h)
        (λ many.
          >>=-Yields _ _ (choose-Yields r is_random AreBytes n corpus (ground arith) k)
            (λ other is_bytes.
              if-Yields _ (same_data other.0 xs) _ _
                (λ _.
                  splice_alternative-Yields other.1 xs (others xs corpus) h
                    (others-All AreBytes xs corpus k))
                (λ _. splice-Yields other.1 xs other.0 h is_bytes)))

-- What is documented of `random.choices`.
pub record IsWeighted (w : Weighted) : Type 0 where
  pub index_inside :
      (n : ℕ) (weights : List ℕ) → 0 < length weights → w.index n weights < length weights

length-map : {A B : Type 0} (f : A → B) (xs : List A) → length (map f xs) ≡ length xs
length-map f [] = refl
length-map f (x ∷ xs) = ap suc (length-map f xs)

module _ (r : Random) (is_random : IsRandom r) (w : Weighted) (is_weighted : IsWeighted w)
    (engine : Engine) (corpus : All AreBytes engine.seed_corpus) where
  mutate-Yields :
      (name : String) (n : ℕ) (xs : List ℕ)
      → IsKnown name
      → AreBytes xs
      → Yields GivesBytes (mutate r w engine name n xs)
  unfolding mutate
  mutate-Yields name n xs known h =
      if-Yields _ (name == "bitflip") _ _
        (λ _.
          gives_bytes _ (λ v p. p.1) (mutate_bits-Yields r is_random engine.flip_ratio_bits n xs h))
        (λ e1.
          if-Yields _ (name == "byteflip") _ _
            (λ _.
              gives_bytes _ (λ v p. p.1)
                (mutate_bytes-Yields r is_random engine.flip_ratio_bytes n xs h))
            (λ e2.
              if-Yields _ (name == "arithmetic") _ _
                (λ _. gives_bytes _ (λ v p. p.1) (mutate_word-Yields r is_random n xs h))
                (λ e3.
                  if-Yields _ (name == "interesting") _ _
                    (λ _. gives_bytes _ (λ v p. p.1) (mutate_interesting-Yields r is_random n xs h))
                    (λ e4.
                      if-Yields _ (name == "havoc") _ _
                        (λ _.
                          gives_bytes _ (λ v p. p.1)
                            (mutate_havoc-Yields r is_random engine.havoc_max_size n xs h))
                        (λ e5.
                          if-Yields _ (name == "splice") _ _
                            (λ _. mutate_splice-Yields r is_random engine.seed_corpus n xs corpus h)
                            (λ e6. absurd (not_known e1 e2 e3 e4 e5 e6)))))))
    where
      not_known :
          (name == "bitflip") ≡ false
          → (name == "byteflip") ≡ false
          → (name == "arithmetic") ≡ false
          → (name == "interesting") ≡ false
          → (name == "havoc") ≡ false
          → (name == "splice") ≡ false
          → ⊥
      not_known e1 e2 e3 e4 e5 e6 =
          unfold is_in in
          cc (
            known,
            same_text_comm name "bitflip",
            same_text_comm name "byteflip",
            same_text_comm name "arithmetic",
            same_text_comm name "interesting",
            same_text_comm name "havoc",
            same_text_comm name "splice",
          )

  -- Flipping bits or bytes, arithmetic and interesting values never fail, and return as many bytes as they
  -- were given, whatever their length.
  pub mutate-KeepsIn :
      (name : String) (n : ℕ) (xs : List ℕ)
      → is_in name ("bitflip" ∷ "byteflip" ∷ "arithmetic" ∷ "interesting" ∷ []) ≡ true
      → AreBytes xs
      → Yields (KeepsIn xs) (mutate r w engine name n xs)
  unfolding mutate
  mutate-KeepsIn name n xs listed h =
      if-Yields _ (name == "bitflip") _ _
        (λ _. mutate_bits-Yields r is_random engine.flip_ratio_bits n xs h)
        (λ e1.
          if-Yields _ (name == "byteflip") _ _
            (λ _. mutate_bytes-Yields r is_random engine.flip_ratio_bytes n xs h)
            (λ e2.
              if-Yields _ (name == "arithmetic") _ _ (λ _. mutate_word-Yields r is_random n xs h)
                (λ e3.
                  if-Yields _ (name == "interesting") _ _
                    (λ _. mutate_interesting-Yields r is_random n xs h)
                    (λ e4. absurd (
                      unfold is_in in
                      cc (
                        listed,
                        same_text_comm name "bitflip",
                        same_text_comm name "byteflip",
                        same_text_comm name "arithmetic",
                        same_text_comm name "interesting",
                      ))))))

  module _ (config : Option (List String))
      (enabled : engine.enabled_mutators ≡ normalize_enabled config) where
    choose_mutator-Yields :
        (n : ℕ) → Yields (λ (v : String × ℕ). IsKnown v.0) (choose_mutator r w engine n)
    unfolding choose_mutator
    choose_mutator-Yields n =
        let (some_name, known) =
          subst (λ (names : List String). (0 < length names) × All IsKnown names) (sym enabled)
            (normalize_enabled-IsKnown config) in
        >>=-Yields _ _
          (get_at-Yields IsKnown (w.index n (map weight_of engine.enabled_mutators))
            engine.enabled_mutators
            (omega (
              arith,
              length-map weight_of engine.enabled_mutators,
              is_weighted.index_inside n (map weight_of engine.enabled_mutators)
                  (omega (arith, length-map weight_of engine.enabled_mutators, some_name)),
            ))
            known)
          (λ name k. ok-Yields _ _ k)

    -- The result of the loop: bytes, and one known name for each round.
    abbrev pub IsMutated : ℕ → (List ℕ × List String) × ℕ → Type 0
    IsMutated rounds ((out, applied), n) =
        AreBytes out × (length applied ≡ rounds) × All IsKnown applied

    -- The byte-level loop of `generate_test_case` never fails, whatever names are configured and whatever is
    -- drawn: from bytes and a corpus of bytes it makes bytes, and it applies one of the six mutators in each
    -- round.
    pub mutate_loop-IsMutated :
        (num_mutations n : ℕ) (base_seed : List ℕ)
        → AreBytes base_seed
        → Yields (IsMutated num_mutations) (mutate_loop r w engine num_mutations n base_seed)
    unfolding mutate_loop
    mutate_loop-IsMutated zero n base_seed h = ok-Yields _ _ (h, refl, tt)
    mutate_loop-IsMutated (suc num_mutations) n base_seed h =
        >>=-Yields _ _ (choose_mutator-Yields n) (λ name known.
          >>=-Yields _ _ (mutate-Yields name.0 name.1 base_seed known h) (λ v is_bytes.
            >>=-Yields _ _ (mutate_loop-IsMutated num_mutations v.1 v.0 is_bytes)
              (λ out k. ok-Yields _ _ (k.0, ap suc k.1, (known, k.2)))))
