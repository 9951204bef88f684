-- ===== src/Mutation/Growth.antt =====
-- How far `HavocMutator` lets the data grow.
use fuzzing_framework.Prelude.{
  ℕ, zero, suc, ◌+◌, ◌-◌, ◌*◌, min, ◌≤◌, ◌<◌, ◌≡◌, refl, ap, List, [], ◌∷◌, arith, length, drop,
  All-take, All-drop, length-take, length-drop, ltb,
}
use fuzzing_framework.Result.{Result, ok, ◌>>=◌}
use fuzzing_framework.Protocol.BitString.{AreBytes}
use fuzzing_framework.Mutation.Draws.{Random, IsRandom, Failure, draw}
use fuzzing_framework.Mutation.Bytes.{is_empty_list}
use fuzzing_framework.Mutation.Havoc.{
  HavocMutation, insert, delete, duplicate, shuffle, havoc_mutations, insert_at, random_bytes,
  insert_bytes, delete_bytes, duplicate_chunk, shuffle_chunk, havoc_step, havoc_steps, mutate_havoc,
  chunk,
}
use fuzzing_framework.Mutation.Yields.{
  Yields, ok-Yields, if-Yields, >>=-Yields, draw-Yields, choose-Yields,
}
use fuzzing_framework.Mutation.Kept.{length-between, between-AreBytes, unit-All}

-- Bytes, at most so many.
abbrev pub IsWithin : ℕ → List ℕ × ℕ → Type 0
IsWithin bound (out, n) = (length out ≤ bound) × AreBytes out

module _ (r : Random) (is_random : IsRandom r) where
  random_bytes-Yields :
      (count n : ℕ)
      → Yields (λ (v : List ℕ × ℕ). (length v.0 ≡ count) × AreBytes v.0) (random_bytes r count n)
  unfolding random_bytes
  random_bytes-Yields zero n = ok-Yields _ _ (refl, tt)
  random_bytes-Yields (suc count) n =
      >>=-Yields (draw r n 0 255) (λ b. random_bytes r count b.1 >>= λ bs. ok (b.0 ∷ bs.0, bs.1))
        (draw-Yields r is_random n 0 255 (omega arith))
        (λ b byte.
          >>=-Yields (random_bytes r count b.1) (λ bs. ok (b.0 ∷ bs.0, bs.1))
            (random_bytes-Yields count b.1)
            (λ bs k. ok-Yields _ _ (ap suc k.0, (omega (arith, byte.1), k.1))))

  insert_bytes-Yields :
      (n : ℕ) (xs : List ℕ) → AreBytes xs → Yields (IsWithin (length xs + 16)) (insert_bytes r n xs)
  unfolding insert_bytes
  insert_bytes-Yields n xs all =
      >>=-Yields _ _ (draw-Yields r is_random n 0 (length xs) (omega arith)) (λ p range.
        >>=-Yields (draw r p.1 1 16)
          (λ c. random_bytes r c.0 c.1 >>= λ bs. ok (insert_at p.0 bs.0 xs, bs.1))
          (draw-Yields r is_random p.1 1 16 (omega arith))
          (λ c few.
            >>=-Yields (random_bytes r c.0 c.1) (λ bs. ok (insert_at p.0 bs.0 xs, bs.1))
              (random_bytes-Yields c.0 c.1)
              (λ bs k. ok-Yields _ _ (
                omega (arith, length-between p.0 p.0 bs.0 xs, k.0, few.1, range.1),
                between-AreBytes p.0 p.0 bs.0 xs k.1 all,
              ))))

  delete_bytes-Yields :
      (n : ℕ) (xs : List ℕ)
      → 4 < length xs
      → AreBytes xs
      → Yields (IsWithin (length xs)) (delete_bytes r n xs)
  unfolding delete_bytes
  delete_bytes-Yields n xs long all =
      >>=-Yields _ _ (draw-Yields r is_random n 0 (length xs - 2) (omega arith)) (λ p range.
        >>=-Yields _ _
          (draw-Yields r is_random p.1 1 (min 16 (length xs - p.0)) (omega (arith, range.1)))
          (λ d few. ok-Yields _ _ (
            omega (arith, length-between p.0 (p.0 + d.0) [] xs, range.1),
            between-AreBytes p.0 (p.0 + d.0) [] xs tt all,
          )))

  duplicate_chunk-Yields :
      (n : ℕ) (xs : List ℕ)
      → 4 < length xs
      → AreBytes xs
      → Yields (IsWithin (length xs + 32)) (duplicate_chunk r n xs)
  unfolding duplicate_chunk
  duplicate_chunk-Yields n xs long all =
      >>=-Yields _ _ (draw-Yields r is_random n 0 (length xs - 2) (omega arith)) (λ s range.
        >>=-Yields _ _
          (draw-Yields r is_random s.1 (s.0 + 1) (min (s.0 + 32) (length xs))
            (omega (arith, range.1)))
          (λ e inside.
            >>=-Yields _ _ (draw-Yields r is_random e.1 0 (length xs) (omega arith)) (λ p at_p.
              ok-Yields _ _ (
                omega (
                  arith,
                  length-between p.0 p.0 (chunk s.0 e.0 xs) xs,
                  length-take {0} (e.0 - s.0) (drop s.0 xs),
                  inside.1,
                  at_p.1,
                ),
                between-AreBytes p.0 p.0 (chunk s.0 e.0 xs) xs
                    (All-take _ (e.0 - s.0) (drop s.0 xs) (All-drop _ s.0 xs all)) all,
              ))))

  shuffle_chunk-Yields :
      (n : ℕ) (xs : List ℕ)
      → 8 < length xs
      → AreBytes xs
      → Yields (IsWithin (length xs)) (shuffle_chunk r n xs)
  unfolding shuffle_chunk
  shuffle_chunk-Yields n xs long all =
      >>=-Yields _ _ (draw-Yields r is_random n 0 (length xs - 4) (omega arith)) (λ s range.
        >>=-Yields _ _
          (draw-Yields r is_random s.1 (s.0 + 4) (min (s.0 + 32) (length xs))
            (omega (arith, range.1)))
          (λ e inside.
            let part = chunk s.0 e.0 xs in
            ok-Yields _ _ (
              omega (
                arith,
                length-between s.0 e.0 (r.shuffle e.1 part) xs,
                is_random.shuffle_length e.1 part,
                length-take {0} (e.0 - s.0) (drop s.0 xs),
                length-drop {0} s.0 xs,
                inside.0,
                inside.1,
              ),
              between-AreBytes s.0 e.0 (r.shuffle e.1 part) xs
                  (is_random.shuffle_all (λ b. b < 256) e.1 part
                    (All-take _ (e.0 - s.0) (drop s.0 xs) (All-drop _ s.0 xs all)))
                  all,
            )))

  IsWithin-more :
      (a b : ℕ) (m : Result Failure (List ℕ × ℕ))
      → a ≤ b
      → Yields (IsWithin a) m
      → Yields (IsWithin b) m
  IsWithin-more a b m h (v, e, k) = (v, e, (omega (arith, k.0), k.1))

  havoc_step-Yields :
      (max_size : ℕ) (k : HavocMutation) (n : ℕ) (xs : List ℕ)
      → AreBytes xs
      → Yields (IsWithin (length xs + 32)) (havoc_step r max_size k n xs)
  unfolding havoc_step
  havoc_step-Yields max_size insert n xs all =
      if-Yields _ (ltb (length xs) max_size) _ _
        (λ _. IsWithin-more _ _ _ (omega arith) (insert_bytes-Yields n xs all))
        (λ _. ok-Yields _ _ (omega arith, all))
  havoc_step-Yields max_size delete n xs all =
      if-Yields _ (ltb 4 (length xs)) _ _
        (λ e. IsWithin-more _ _ _ (omega arith) (delete_bytes-Yields n xs (ground arith) all))
        (λ _. ok-Yields _ _ (omega arith, all))
  havoc_step-Yields max_size duplicate n xs all =
      if-Yields _ (ltb 4 (length xs)) _ _ (λ e. duplicate_chunk-Yields n xs (ground arith) all)
        (λ _. ok-Yields _ _ (omega arith, all))
  havoc_step-Yields max_size shuffle n xs all =
      if-Yields _ (ltb 8 (length xs)) _ _
        (λ e. IsWithin-more _ _ _ (omega arith) (shuffle_chunk-Yields n xs (ground arith) all))
        (λ _. ok-Yields _ _ (omega arith, all))

  havoc_steps-Yields :
      (max_size count n : ℕ) (xs : List ℕ)
      → AreBytes xs
      → Yields (IsWithin (length xs + 32 * count)) (havoc_steps r max_size count n xs)
  unfolding havoc_steps
  havoc_steps-Yields max_size zero n xs all = ok-Yields _ _ (omega arith, all)
  havoc_steps-Yields max_size (suc count) n xs all =
      >>=-Yields _ _
        (choose-Yields r is_random (λ k. Unit) n havoc_mutations (omega arith)
          (unit-All havoc_mutations))
        (λ k _. >>=-Yields _ _ (havoc_step-Yields max_size k.0 k.1 xs all) (λ v within.
          IsWithin-more _ _ _ (omega (arith, within.0))
            (havoc_steps-Yields max_size count v.1 v.0 within.1)))

  -- Havoc always returns bytes, at most 320 more than it was given: ten rounds, each of which adds 32 bytes
  -- at most. (The bound `max_size` holds back insertions alone.)
  pub mutate_havoc-Yields :
      (max_size n : ℕ) (xs : List ℕ)
      → AreBytes xs
      → Yields (IsWithin (length xs + 320)) (mutate_havoc r max_size n xs)
  unfolding mutate_havoc
  mutate_havoc-Yields max_size n xs all =
      if-Yields _ (is_empty_list xs) _ _ (λ _. ok-Yields _ _ (omega arith, all))
        (λ _.
          >>=-Yields (draw r n 2 10) (λ c. havoc_steps r max_size c.0 c.1 xs)
            (draw-Yields r is_random n 2 10 (omega arith))
            (λ c few.
              IsWithin-more _ _ _ (omega (arith, few.1))
                (havoc_steps-Yields max_size c.0 c.1 xs all)))
