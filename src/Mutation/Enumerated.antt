-- ===== src/Mutation/Enumerated.antt =====
-- The enumeration modes hand out every test of the enumeration.
use fuzzing_framework.Prelude.{
  ℕ, suc, ◌+◌, ◌≡◌, refl, ap, false, some, List, [], ◌∷◌, arith, length,
}
use fuzzing_framework.Result.{Result, ok, ◌>>=◌}
use fuzzing_framework.Mutation.Draws.{Random, Failure}
use fuzzing_framework.Mutation.Engine.{
  Engine, Enumeration, Weighted, enumeration, generate_test_case,
}

-- An enumeration with these tests left.
abbrev pub enumerating : List (List ℕ) → ℕ → Enumeration
enumerating tests count = record { iterator = some tests; exhausted = false; count = count }

module _ (r : Random) (w : Weighted) (engine : Engine) where
  -- As many test cases as there are seeds, one call for each; with them, the number of draws made so far.
  unfoldable pub generate_all :
      Enumeration → ℕ → List (List ℕ) → Result Failure ((List (List ℕ) × ℕ) × Enumeration)
  unfolding generate_test_case
  generate_all e n [] = ok (([], n), e)
  generate_all e n (seed ∷ seeds) = do
    ((test, n'), e') ← generate_test_case r w engine e 1 n seed
    ((tests, m), e'') ← generate_all e' n' seeds
    ok ((test ∷ tests, m), e'')

  next_test :
      (test : List ℕ) (tests : List (List ℕ)) (seed : List ℕ) (count n : ℕ)
      → engine.mutation_mode ≡ enumeration
      → generate_test_case r w engine (enumerating (test ∷ tests) count) 1 n seed
        ≡ ok ((test, n), enumerating tests (count + 1))
  unfolding generate_test_case
  next_test test tests seed count n mode = rw mode refl

  -- In an enumeration mode, the first calls return the tests of the enumeration, each once and in order,
  -- whatever their seeds are; the count goes up by their number, no draw is made and none fails.
  pub generate_all_lem :
      (tests seeds : List (List ℕ)) (count n : ℕ)
      → engine.mutation_mode ≡ enumeration
      → length seeds ≡ length tests
      → generate_all (enumerating tests count) n seeds
        ≡ ok ((tests, n), enumerating [] (count + length tests))
  unfolding generate_all
  generate_all_lem [] [] count n mode same =
      ap (λ (k : ℕ). ok (([], n), enumerating [] k)) (omega arith)
  generate_all_lem [] (seed ∷ seeds) count n mode same = absurd (omega arith)
  generate_all_lem (test ∷ tests) [] count n mode same = absurd (omega arith)
  generate_all_lem (test ∷ tests) (seed ∷ seeds) count n mode same =
      let total : count + 1 + length tests ≡ count + suc (length tests) = omega arith in
      rw (next_test test tests seed count n mode) (
        rw (generate_all_lem tests seeds (count + 1) n mode (omega arith))
          (ap (λ (k : ℕ). ok ((test ∷ tests, n), enumerating [] k)) total))
