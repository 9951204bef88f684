-- ===== src/Mutation/Bytes.antt =====
-- The mutators that change bytes in place: `BitFlipMutator`, `ByteFlipMutator`, `ArithmeticMutator` and
-- `InterestingValueMutator`; and `SpliceMutator`.
use Prim.Native.Nat.{bit_xor}
use fuzzing_framework.Prelude.{
  ℕ, zero, suc, ◌+◌, ◌-◌, ◌*◌, ◌/◌, ◌%◌, ◌^◌, max, Bool, true, false, ◌&&◌, List, [], ◌∷◌, ◌++◌,
  length, take, drop, ltb, leb, ◌==◌, if◌then◌else◌,
}
use fuzzing_framework.Prelude.Int.{ℤ, pos, negsuc, ◌+ℤ◌, low_bits}
use fuzzing_framework.Result.{Result, ok, err, ◌>>=◌}
use fuzzing_framework.Protocol.Integers.{from_big, to_big}
use fuzzing_framework.Mutation.Draws.{Random, Failure, index_error, struct_error, draw, get_at}

-- `data_array[i] = v`
unfoldable pub set_at : ℕ → ℕ → List ℕ → Result Failure (List ℕ)
set_at i v [] = err index_error
set_at zero v (x ∷ xs) = ok (v ∷ xs)
set_at (suc i) v (x ∷ xs) = do rest ← set_at i v xs; ok (x ∷ rest)

-- `struct.pack_into` of an unsigned integer of `size` bytes, most significant first.
unfoldable pub pack_into : ℕ → ℕ → ℕ → List ℕ → Result Failure (List ℕ)
unfolding to_big
pack_into size i v data' =
    if ltb (length data') (i + size)
    then err struct_error
    else if leb (2 ^ (8 * size)) v
    then err struct_error
    else ok (take i data' ++ (to_big size v ++ drop (i + size) data'))

abbrev pub is_empty_list : List ℕ → Bool
is_empty_list [] = true
is_empty_list (b ∷ bs) = false

-- `DELTAS`
abbrev pub byte_deltas : List ℤ
byte_deltas =
    negsuc 127
    ∷ negsuc 63
    ∷ negsuc 31
    ∷ negsuc 15
    ∷ negsuc 7
    ∷ negsuc 0
    ∷ pos 1
    ∷ pos 8
    ∷ pos 16
    ∷ pos 32
    ∷ pos 64
    ∷ pos 128
    ∷ []

abbrev pub interesting_8 : List ℕ
interesting_8 = 0 ∷ 1 ∷ 127 ∷ 128 ∷ 255 ∷ []

abbrev pub interesting_16 : List ℕ
interesting_16 = 0 ∷ 1 ∷ 255 ∷ 256 ∷ 32767 ∷ 32768 ∷ 65535 ∷ []

abbrev pub interesting_32 : List ℕ
interesting_32 = 0 ∷ 1 ∷ 65535 ∷ 65536 ∷ 0x7fffffff ∷ 0x80000000 ∷ 0xffffffff ∷ []

abbrev pub same_data : List ℕ → List ℕ → Bool
same_data [] [] = true
same_data (b ∷ bs) (c ∷ cs) = b == c && same_data bs cs
same_data _ _ = false

-- `[s for s in self.corpus if s != data]`
unfoldable pub others : List ℕ → List (List ℕ) → List (List ℕ)
others data' [] = []
others data' (s ∷ corpus) =
    let rest = others data' corpus in if same_data s data' then rest else s ∷ rest

module _ (r : Random) where
  -- `random.choice`
  unfoldable pub choose : {A : Type 0} → ℕ → List A → Result Failure (A × ℕ)
  unfolding get_at
  choose n xs = do x ← get_at (r.index n (length xs)) xs; ok (x, suc n)

  -- A round of the loop of `BitFlipMutator.mutate`.
  unfoldable pub flip_bit : ℕ → List ℕ → Result Failure (List ℕ × ℕ)
  unfolding draw get_at set_at
  flip_bit n data' = do
    (bit_pos, n') ← draw r n 0 (length data' * 8 - 1)
    byte ← get_at (bit_pos / 8) data'
    flipped ← set_at (bit_pos / 8) (bit_xor byte (2 ^ (bit_pos % 8))) data'
    ok (flipped, n')

  unfoldable pub flip_bits : ℕ → ℕ → List ℕ → Result Failure (List ℕ × ℕ)
  unfolding flip_bit
  flip_bits zero n data' = ok (data', n)
  flip_bits (suc flips) n data' = do (flipped, n') ← flip_bit n data'; flip_bits flips n' flipped

  -- `BitFlipMutator.mutate`; `scaled k` is `int(k * self.flip_ratio)`.
  unfoldable pub mutate_bits : (ℕ → ℕ) → ℕ → List ℕ → Result Failure (List ℕ × ℕ)
  unfolding flip_bits
  mutate_bits scaled n data' =
      if is_empty_list data'
      then ok (data', n)
      else flip_bits (max 1 (scaled (length data' * 8))) n data'

  -- A round of the loop of `ByteFlipMutator.mutate`.
  unfoldable pub flip_byte : ℕ → List ℕ → Result Failure (List ℕ × ℕ)
  unfolding draw set_at
  flip_byte n data' = do
    (i, n') ← draw r n 0 (length data' - 1)
    (byte, n'') ← draw r n' 0 255
    flipped ← set_at i byte data'
    ok (flipped, n'')

  unfoldable pub flip_bytes : ℕ → ℕ → List ℕ → Result Failure (List ℕ × ℕ)
  unfolding flip_byte
  flip_bytes zero n data' = ok (data', n)
  flip_bytes (suc flips) n data' = do (flipped, n') ← flip_byte n data'; flip_bytes flips n' flipped

  -- `ByteFlipMutator.mutate`
  unfoldable pub mutate_bytes : (ℕ → ℕ) → ℕ → List ℕ → Result Failure (List ℕ × ℕ)
  unfolding flip_bytes
  mutate_bytes scaled n data' =
      if is_empty_list data'
      then ok (data', n)
      else flip_bytes (max 1 (scaled (length data'))) n data'

  -- `ArithmeticMutator.mutate`
  unfoldable pub mutate_word : ℕ → List ℕ → Result Failure (List ℕ × ℕ)
  unfolding draw choose from_big low_bits pack_into
  mutate_word n data' = if ltb (length data') 4 then ok (data', n) else (do
    (i, n') ← draw r n 0 (length data' - 4)
    (delta, n'') ← choose n' byte_deltas
    let value = from_big 0 (take 4 (drop i data'))
    changed ← pack_into 4 i (low_bits 32 (pos value +ℤ delta)) data'
    ok (changed, n''))

  -- `pos + 4 <= len(data) and random.random() < 0.5`
  abbrev pub takes_word : ℕ → ℕ → ℕ → Bool × ℕ
  takes_word n i size = if leb (i + 4) size then (r.is_below_half n, suc n) else (false, n)

  -- The three branches of `InterestingValueMutator.mutate`.
  unfoldable pub put_interesting : Bool × ℕ → ℕ → List ℕ → Result Failure (List ℕ × ℕ)
  unfolding choose pack_into set_at
  put_interesting (true, n) i data' = do
    (value, n') ← choose n interesting_32
    changed ← pack_into 4 i value data'
    ok (changed, n')
  put_interesting (false, n) i data' =
      if leb (i + 2) (length data')
      then (do
        (value, n') ← choose n interesting_16
        changed ← pack_into 2 i value data'
        ok (changed, n'))
      else (do
        (value, n') ← choose n interesting_8
        changed ← set_at i value data'
        ok (changed, n'))

  -- `InterestingValueMutator.mutate`
  unfoldable pub mutate_interesting : ℕ → List ℕ → Result Failure (List ℕ × ℕ)
  unfolding draw put_interesting
  mutate_interesting n data' = if ltb (length data') 2 then ok (data', n) else (do
    (i, n') ← draw r n 0 (length data' - 2)
    put_interesting (takes_word n' i (length data')) i data')

  -- The rest of `SpliceMutator.mutate`, once `other` is chosen.
  unfoldable pub splice : ℕ → List ℕ → List ℕ → Result Failure (List ℕ × ℕ)
  unfolding draw
  splice n data' other = do
    (split1, n') ← draw r n 0 (length data')
    (split2, n'') ← draw r n' 0 (length other)
    ok (take split1 data' ++ drop split2 other, n'')

  -- The choice of another seed where the first choice is the data itself.
  unfoldable pub splice_alternative : ℕ → List ℕ → List (List ℕ) → Result Failure (List ℕ × ℕ)
  unfolding choose splice
  splice_alternative n data' [] = ok (data', n)
  splice_alternative n data' (s ∷ seeds) = do
    (other, n') ← choose n (s ∷ seeds)
    splice n' data' other

  -- `SpliceMutator.mutate`
  unfoldable pub mutate_splice : List (List ℕ) → ℕ → List ℕ → Result Failure (List ℕ × ℕ)
  unfolding choose splice others splice_alternative
  mutate_splice corpus n data' = if ltb (length corpus) 2 then ok (data', n) else (do
    (other, n') ← choose n corpus
    if same_data other data'
        then splice_alternative n' data' (others data' corpus)
        else splice n' data' other)
