-- ===== src/Tests/Mutations.antt =====
-- Mutations: the witnesses of their theorems, with a generator whose draws are the least ones, and one that
-- takes the last entry of every list.
use fuzzing_framework.Prelude.{
  ℕ, ◌-◌, ◌<◌, String, ◌≡◌, refl, true, Option, none, some, List, [], ◌∷◌, arith, is_in,
}
use fuzzing_framework.Prelude.Int.{ℤ, negsuc, ◌+ℤ◌}
use fuzzing_framework.Result.{ok}
use fuzzing_framework.Protocol.Model.{Block, block, int_type, w8}
use fuzzing_framework.Protocol.BitString.{AreBytes}
use fuzzing_framework.Mutation.Draws.{Random, IsRandom}
use fuzzing_framework.Mutation.Havoc.{mutate_havoc}
use fuzzing_framework.Mutation.Engine.{
  Engine, Weighted, enumeration, byte_level, normalize_enabled, mutate, mutate_loop,
}
use fuzzing_framework.Mutation.Primitives.{apply_arithmetic_mutation}
use fuzzing_framework.Mutation.Yields.{Yields}
use fuzzing_framework.Mutation.Kept.{KeepsIn}
use fuzzing_framework.Mutation.Growth.{IsWithin, mutate_havoc-Yields}
use fuzzing_framework.Mutation.Returns.{
  IsWeighted, IsMutated, mutate-KeepsIn, mutate_loop-IsMutated,
}
use fuzzing_framework.Mutation.Enumerated.{enumerating, generate_all, generate_all_lem}
use fuzzing_framework.Mutation.Fitting.{
  info_of, IsHeld, IsSerialized, is_integer_format, apply_arithmetic_mutation-IsSerialized,
}

abbrev least : Random
least = record {
  randint = λ n lo hi. lo;
  index = λ n size. 0;
  is_below_half = λ n. true;
  shuffle = λ n xs. xs;
}

least-IsRandom : IsRandom least
least-IsRandom = record {
  randint_least = λ n lo hi h. omega arith;
  randint_most = λ n lo hi h. h;
  index_inside = λ n size h. h;
  shuffle_length = λ n xs. refl;
  shuffle_all = λ P n xs h. h;
}

abbrev last : Random
last = record least { index = λ n size. size - 1 }

abbrev first : Weighted
first = record { index = λ n weights. 0 }

first-IsWeighted : IsWeighted first
first-IsWeighted = record { index_inside = λ n weights h. h }

-- A configuration with a name that is no mutator.
abbrev config : Option (List String)
config = some ("magic" ∷ "arithmetic" ∷ "splice" ∷ [])

abbrev engine : Engine
engine = record {
  seed_corpus = (1 ∷ 2 ∷ []) ∷ (3 ∷ []) ∷ [];
  enabled_mutators = "arithmetic" ∷ "splice" ∷ [];
  mutation_mode = byte_level;
  structure_aware_weight = 70;
  structure_mutator = none;
  flip_ratio_bits = λ n. 0;
  flip_ratio_bytes = λ n. 0;
  havoc_max_size = 4096;
  fallback_on_parse_error = true;
}

small : (n : ℕ) → n < 256 → AreBytes (n ∷ n ∷ n ∷ n ∷ n ∷ [])
small n h = (h, (h, (h, (h, (h, tt)))))

abbrev seed : List ℕ
seed = 7 ∷ 7 ∷ 7 ∷ 7 ∷ 7 ∷ []

seed-AreBytes : AreBytes seed
seed-AreBytes = small 7 (omega arith)

corpus-AreBytes : AreBytes (1 ∷ 2 ∷ []) × (AreBytes (3 ∷ []) × Unit {0})
corpus-AreBytes = ((omega arith, (omega arith, tt)), ((omega arith, tt), tt))

magic_dropped : "arithmetic" ∷ "splice" ∷ [] ≡ normalize_enabled config
unfolding normalize_enabled
magic_dropped = refl

mutate_loop-IsMutated_example :
    Yields
      (IsMutated least least-IsRandom first first-IsWeighted engine corpus-AreBytes config
        magic_dropped 2)
      (mutate_loop least first engine 2 0 seed)
mutate_loop-IsMutated_example =
    mutate_loop-IsMutated least least-IsRandom first first-IsWeighted engine corpus-AreBytes config
      magic_dropped 2 0 seed seed-AreBytes

mutate-KeepsIn_example : Yields (KeepsIn seed) (mutate least first engine "interesting" 0 seed)
mutate-KeepsIn_example =
    mutate-KeepsIn least least-IsRandom first first-IsWeighted engine corpus-AreBytes "interesting"
      0 seed (unfold is_in in refl) seed-AreBytes

-- The first four bytes become 0.
interesting_word : mutate least first engine "interesting" 0 seed ≡ ok (0 ∷ 0 ∷ 0 ∷ 0 ∷ 7 ∷ [], 3)
unfolding mutate
interesting_word = refl

mutate_havoc-Yields_example : Yields (IsWithin 325) (mutate_havoc least 4096 0 seed)
mutate_havoc-Yields_example = mutate_havoc-Yields least least-IsRandom 4096 0 seed seed-AreBytes

abbrev signed : Block
signed = block "delta" (int_type w8)

-- The lower end of the format stays where it is.
lower_end :
    apply_arithmetic_mutation least 0 (negsuc 127) (some (info_of signed)) ≡ ok (negsuc 127, 1)
unfolding apply_arithmetic_mutation ◌+ℤ◌
lower_end = refl

apply_arithmetic_mutation-IsSerialized_example :
    Yields
      (λ (out : ℤ × ℕ). IsHeld signed.type out.0 × IsSerialized signed out.0)
      (apply_arithmetic_mutation least 0 (negsuc 127) (some (info_of signed)))
apply_arithmetic_mutation-IsSerialized_example =
    apply_arithmetic_mutation-IsSerialized least 0 signed (negsuc 127) least-IsRandom
      (unfold is_integer_format in refl)

abbrev enumerator : Engine
enumerator = record engine { mutation_mode = enumeration }

generate_all_lem_example :
    generate_all least first enumerator (enumerating (seed ∷ [] ∷ []) 4) 0 (seed ∷ seed ∷ [])
    ≡ ok ((seed ∷ [] ∷ [], 0), enumerating [] 6)
generate_all_lem_example =
    generate_all_lem least first enumerator (seed ∷ [] ∷ []) (seed ∷ seed ∷ []) 4 0 refl refl
