-- ===== src/Mutation/Havoc.antt =====
-- `HavocMutator.mutate`.
use fuzzing_framework.Prelude.{
  ℕ, zero, suc, ◌+◌, ◌-◌, min, List, [], ◌∷◌, ◌++◌, length, take, drop, ltb, if◌then◌else◌,
}
use fuzzing_framework.Result.{Result, ok, ◌>>=◌}
use fuzzing_framework.Mutation.Draws.{Random, Failure, draw}
use fuzzing_framework.Mutation.Bytes.{choose, is_empty_list}

pub data HavocMutation : Type 0 where
  insert delete duplicate shuffle : HavocMutation

abbrev pub havoc_mutations : List HavocMutation
havoc_mutations = insert ∷ delete ∷ duplicate ∷ shuffle ∷ []

-- `data_array[i:i] = bs`
abbrev pub insert_at : ℕ → List ℕ → List ℕ → List ℕ
insert_at i bs data' = take i data' ++ (bs ++ drop i data')

-- `data_array[start:end]`
abbrev pub chunk : ℕ → ℕ → List ℕ → List ℕ
chunk start end data' = take (end - start) (drop start data')

module _ (r : Random) where
  -- `bytes(random.randint(0, 255) for _ in range(count))`
  unfoldable pub random_bytes : ℕ → ℕ → Result Failure (List ℕ × ℕ)
  unfolding draw
  random_bytes zero n = ok ([], n)
  random_bytes (suc count) n = do
    (byte, n') ← draw r n 0 255
    (bytes, n'') ← random_bytes count n'
    ok (byte ∷ bytes, n'')

  unfoldable pub insert_bytes : ℕ → List ℕ → Result Failure (List ℕ × ℕ)
  unfolding draw random_bytes
  insert_bytes n data' = do
    (i, n') ← draw r n 0 (length data')
    (insert_len, n'') ← draw r n' 1 16
    (bytes, n''') ← random_bytes insert_len n''
    ok (insert_at i bytes data', n''')

  unfoldable pub delete_bytes : ℕ → List ℕ → Result Failure (List ℕ × ℕ)
  unfolding draw
  delete_bytes n data' = do
    (i, n') ← draw r n 0 (length data' - 2)
    (delete_len, n'') ← draw r n' 1 (min 16 (length data' - i))
    ok (take i data' ++ drop (i + delete_len) data', n'')

  unfoldable pub duplicate_chunk : ℕ → List ℕ → Result Failure (List ℕ × ℕ)
  unfolding draw
  duplicate_chunk n data' = do
    (start, n') ← draw r n 0 (length data' - 2)
    (end, n'') ← draw r n' (start + 1) (min (start + 32) (length data'))
    (insert_pos, n''') ← draw r n'' 0 (length data')
    ok (insert_at insert_pos (chunk start end data') data', n''')

  unfoldable pub shuffle_chunk : ℕ → List ℕ → Result Failure (List ℕ × ℕ)
  unfolding draw
  shuffle_chunk n data' = do
    (start, n') ← draw r n 0 (length data' - 4)
    (end, n'') ← draw r n' (start + 4) (min (start + 32) (length data'))
    ok (take start data' ++ (r.shuffle n'' (chunk start end data') ++ drop end data'), suc n'')

  -- A round of the loop; `max_size` is `settings.havoc_max_size`.
  unfoldable pub havoc_step : ℕ → HavocMutation → ℕ → List ℕ → Result Failure (List ℕ × ℕ)
  unfolding insert_bytes delete_bytes duplicate_chunk shuffle_chunk
  havoc_step max_size insert n data' =
      if ltb (length data') max_size then insert_bytes n data' else ok (data', n)
  havoc_step max_size delete n data' =
      if ltb 4 (length data') then delete_bytes n data' else ok (data', n)
  havoc_step max_size duplicate n data' =
      if ltb 4 (length data') then duplicate_chunk n data' else ok (data', n)
  havoc_step max_size shuffle n data' =
      if ltb 8 (length data') then shuffle_chunk n data' else ok (data', n)

  unfoldable pub havoc_steps : ℕ → ℕ → ℕ → List ℕ → Result Failure (List ℕ × ℕ)
  unfolding choose havoc_step
  havoc_steps max_size zero n data' = ok (data', n)
  havoc_steps max_size (suc count) n data' = do
    (mutation_type, n') ← choose r n havoc_mutations
    (changed, n'') ← havoc_step max_size mutation_type n' data'
    havoc_steps max_size count n'' changed

  -- `HavocMutator.mutate`
  unfoldable pub mutate_havoc : ℕ → ℕ → List ℕ → Result Failure (List ℕ × ℕ)
  unfolding draw havoc_steps
  mutate_havoc max_size n data' =
      if is_empty_list data'
      then ok (data', n)
      else (do (num_mutations, n') ← draw r n 2 10; havoc_steps max_size num_mutations n' data')
