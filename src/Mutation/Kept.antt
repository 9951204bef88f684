-- ===== src/Mutation/Kept.antt =====
-- The mutators that work in place return data of the same length.
use Prim.Native.Nat.{bit_xor}
use fuzzing_framework.Prelude.{
  ℕ, zero, suc, ◌+◌, ◌-◌, ◌*◌, ◌/◌, ◌%◌, ◌^◌, ◌≤◌, ◌<◌, min, max, ◌≡◌, refl, sym, subst, ◌∙◌, ap,
  Bool, true, Bool-cases, inl, inr, if◌then◌else◌, false, ◌&&◌, List, [], ◌∷◌, ◌++◌, arith, length,
  take, drop, All, All-append, All-take, All-drop, length-append, length-take, length-drop, ltb,
  leb,
}
use fuzzing_framework.Prelude.Int.{pos, ◌+ℤ◌, low_bits}
use fuzzing_framework.Result.{Result, ok, ◌>>=◌}
use fuzzing_framework.Transform.Invert.{low_bits-lt}
use fuzzing_framework.Protocol.Integers.{from_big, to_big}
use fuzzing_framework.Protocol.BitString.{AreBytes, length-to_big, to_big-AreBytes}
use fuzzing_framework.Mutation.Draws.{Random, IsRandom, Failure, draw}
use fuzzing_framework.Mutation.Bytes.{
  set_at, pack_into, flip_bit, flip_bits, mutate_bits, flip_byte, flip_bytes, mutate_bytes,
  byte_deltas, mutate_word, interesting_8, interesting_16, interesting_32, takes_word,
  put_interesting, mutate_interesting, is_empty_list,
}
use fuzzing_framework.Mutation.Yields.{
  Yields, ok-Yields, if-Yields, >>=-Yields, get_at-Yields, draw-Yields, choose-Yields,
}

-- As many bytes as before.
abbrev pub IsKept : List ℕ → List ℕ → Type 0
IsKept data' out = (length out ≡ length data') × AreBytes out

-- The result with the count of the draws.
abbrev pub KeepsIn : List ℕ → List ℕ × ℕ → Type 0
KeepsIn data' (out, n) = IsKept data' out

-- A test that every number up to `top` passes.
unfoldable passes_up_to : (ℕ → Bool) → ℕ → Bool
passes_up_to test zero = test zero
passes_up_to test (suc top) = if test (suc top) then passes_up_to test top else false

passed_up_to :
    (test : ℕ → Bool) (top k : ℕ) → passes_up_to test top ≡ true → k ≤ top → test k ≡ true
unfolding passes_up_to
passed_up_to test zero k passes within = let first : k ≡ 0 = omega arith in cc (ap test first)
passed_up_to test (suc top) k passes within = elim (Bool-cases (leb k top)) [
  | inl lower ↦ passed_up_to test top k (ground arith) (ground arith)
  | inr highest ↦
      let last : k ≡ suc top = ground arith in
      subst (λ (i : ℕ). test i ≡ true) (sym last) (ground arith)
]

-- Flipping the bit `k` of a byte gives a byte.
abbrev stays_byte : ℕ → ℕ → Bool
stays_byte byte k = ltb (bit_xor byte (2 ^ k)) 256

every_flip : passes_up_to (λ byte. passes_up_to (stays_byte byte) 7) 255 ≡ true
unfolding passes_up_to
every_flip = refl

bit_xor-lt : (byte k : ℕ) → byte < 256 → k < 8 → bit_xor byte (2 ^ k) < 256
bit_xor-lt byte k is_byte is_bit =
    let of_byte =
      passed_up_to (λ byte. passes_up_to (stays_byte byte) 7) 255 byte every_flip (omega arith) in
    let of_bit = passed_up_to (stays_byte byte) 7 k of_byte (omega arith) in ground (arith, of_bit)

set_at-Yields :
    (i v : ℕ) (xs : List ℕ)
    → i < length xs
    → v < 256
    → AreBytes xs
    → Yields (IsKept xs) (set_at i v xs)
unfolding set_at
set_at-Yields i v [] h b all = absurd (omega arith)
set_at-Yields zero v (x ∷ xs) h b all = (v ∷ xs, refl, (refl, (b, all.1)))
set_at-Yields (suc i) v (x ∷ xs) h b all =
    >>=-Yields _ _ (set_at-Yields i v xs (omega arith) b all.1)
      (λ rest k. (x ∷ rest, refl, (ap suc k.0, (all.0, k.1))))

-- A part of the data between what is in front of it and what is behind it.
pub length-between :
    (i j : ℕ) (bs xs : List ℕ)
    → length (take i xs ++ (bs ++ drop j xs)) ≡ min i (length xs) + (length bs + (length xs - j))
length-between i j bs xs = omega (
  arith,
  length-append {0} (take i xs) (bs ++ drop j xs),
  length-append {0} bs (drop j xs),
  length-take {0} i xs,
  length-drop {0} j xs,
)

pub between-AreBytes :
    (i j : ℕ) (bs xs : List ℕ)
    → AreBytes bs
    → AreBytes xs
    → AreBytes (take i xs ++ (bs ++ drop j xs))
between-AreBytes i j bs xs h all =
    All-append _ (take i xs) (bs ++ drop j xs) (All-take _ i xs all)
      (All-append _ bs (drop j xs) h (All-drop _ j xs all))

pack_into-Yields :
    (size i v : ℕ) (xs : List ℕ)
    → i + size ≤ length xs
    → v < 2 ^ (8 * size)
    → AreBytes xs
    → Yields (IsKept xs) (pack_into size i v xs)
unfolding pack_into
pack_into-Yields size i v xs h b all =
    if-Yields _ (ltb (length xs) (i + size)) _ _ (λ e. absurd (ground arith))
      (λ _.
        if-Yields _ (leb (2 ^ (8 * size)) v) _ _ (λ e. absurd (ground arith))
          (λ _. ok-Yields _ _ (
            omega (arith, length-between i (i + size) (to_big size v) xs, length-to_big size v),
            between-AreBytes i (i + size) (to_big size v) xs (to_big-AreBytes size v) all,
          )))

-- The data is empty, or it has a byte.
empty_or_not : (xs : List ℕ) → is_empty_list xs ≡ false → 0 < length xs
empty_or_not [] e = absurd (cc e)
empty_or_not (x ∷ xs) e = omega arith

pub unit-All : {A : Type 0} (xs : List A) → All (λ (x : A). Unit {0}) xs
unit-All [] = tt
unit-All (x ∷ xs) = (tt, unit-All xs)

-- All numbers of a list are below a bound, by evaluation.
unfoldable are_below : ℕ → List ℕ → Bool
are_below bound [] = true
are_below bound (x ∷ xs) = ltb x bound && are_below bound xs

are_below_sound : (bound : ℕ) (xs : List ℕ) → are_below bound xs ≡ true → All (λ x. x < bound) xs
unfolding are_below
are_below_sound bound [] h = tt
are_below_sound bound (x ∷ xs) h = (ground arith, are_below_sound bound xs (ground arith))

are_words : All (λ v. v < 2 ^ 32) interesting_32
unfolding are_below
are_words = are_below_sound (2 ^ 32) interesting_32 refl

are_halves : All (λ v. v < 2 ^ 16) interesting_16
unfolding are_below
are_halves = are_below_sound (2 ^ 16) interesting_16 refl

are_bytes : AreBytes interesting_8
unfolding are_below
are_bytes = are_below_sound 256 interesting_8 refl

module _ (r : Random) (is_random : IsRandom r) where
  -- Loops of rounds that keep the length.
  kept_then :
      (xs : List ℕ) (m : Result Failure (List ℕ × ℕ)) (f : List ℕ × ℕ → Result Failure (List ℕ × ℕ))
      → Yields (KeepsIn xs) m
      → ((ys : List ℕ) (n : ℕ)
          → length ys ≡ length xs
          → AreBytes ys
          → Yields (KeepsIn ys) (f (ys, n)))
      → Yields (KeepsIn xs) (m >>= f)
  kept_then xs m f first next =
      >>=-Yields m f first
        (λ v k. let (out, e, kept) = next v.0 v.1 k.0 k.1 in (out, e, (kept.0 ∙ k.0, kept.1)))

  flip_bit-Yields :
      (n : ℕ) (xs : List ℕ) → 0 < length xs → AreBytes xs → Yields (KeepsIn xs) (flip_bit r n xs)
  unfolding flip_bit
  flip_bit-Yields n xs h all =
      >>=-Yields _ _ (draw-Yields r is_random n 0 (length xs * 8 - 1) (omega arith)) (λ p range.
        >>=-Yields _ _ (get_at-Yields (λ b. b < 256) (p.0 / 8) xs (omega (arith, range.1)) all)
          (λ byte is_byte.
            >>=-Yields _ _
              (set_at-Yields (p.0 / 8) (bit_xor byte (2 ^ (p.0 % 8))) xs (omega (arith, range.1))
                (bit_xor-lt byte (p.0 % 8) is_byte (omega arith)) all)
              (λ flipped k. ok-Yields _ _ k)))

  flip_bits-Yields :
      (flips n : ℕ) (xs : List ℕ)
      → 0 < length xs
      → AreBytes xs
      → Yields (KeepsIn xs) (flip_bits r flips n xs)
  unfolding flip_bits
  flip_bits-Yields zero n xs h all = ok-Yields _ _ (refl, all)
  flip_bits-Yields (suc flips) n xs h all =
      kept_then xs _ _ (flip_bit-Yields n xs h all)
        (λ ys k same bytes. flip_bits-Yields flips k ys (omega arith) bytes)

  flip_byte-Yields :
      (n : ℕ) (xs : List ℕ) → 0 < length xs → AreBytes xs → Yields (KeepsIn xs) (flip_byte r n xs)
  unfolding flip_byte
  flip_byte-Yields n xs h all =
      >>=-Yields _ _ (draw-Yields r is_random n 0 (length xs - 1) (omega arith)) (λ p range.
        >>=-Yields (draw r p.1 0 255) (λ x. set_at p.0 x.0 xs >>= λ flipped. ok (flipped, x.1))
          (draw-Yields r is_random p.1 0 255 (omega arith))
          (λ b byte.
            >>=-Yields (set_at p.0 b.0 xs) (λ flipped. ok (flipped, b.1))
              (set_at-Yields p.0 b.0 xs (omega (arith, range.1)) (omega (arith, byte.1)) all)
              (λ flipped k. ok-Yields _ _ k)))

  flip_bytes-Yields :
      (flips n : ℕ) (xs : List ℕ)
      → 0 < length xs
      → AreBytes xs
      → Yields (KeepsIn xs) (flip_bytes r flips n xs)
  unfolding flip_bytes
  flip_bytes-Yields zero n xs h all = ok-Yields _ _ (refl, all)
  flip_bytes-Yields (suc flips) n xs h all =
      kept_then xs _ _ (flip_byte-Yields n xs h all)
        (λ ys k same bytes. flip_bytes-Yields flips k ys (omega arith) bytes)

  pub mutate_bits-Yields :
      (scaled : ℕ → ℕ) (n : ℕ) (xs : List ℕ)
      → AreBytes xs
      → Yields (KeepsIn xs) (mutate_bits r scaled n xs)
  unfolding mutate_bits
  mutate_bits-Yields scaled n xs all =
      if-Yields _ (is_empty_list xs) _ _ (λ _. ok-Yields _ _ (refl, all))
        (λ e. flip_bits-Yields (max 1 (scaled (length xs * 8))) n xs (empty_or_not xs e) all)

  pub mutate_bytes-Yields :
      (scaled : ℕ → ℕ) (n : ℕ) (xs : List ℕ)
      → AreBytes xs
      → Yields (KeepsIn xs) (mutate_bytes r scaled n xs)
  unfolding mutate_bytes
  mutate_bytes-Yields scaled n xs all =
      if-Yields _ (is_empty_list xs) _ _ (λ _. ok-Yields _ _ (refl, all))
        (λ e. flip_bytes-Yields (max 1 (scaled (length xs))) n xs (empty_or_not xs e) all)

  pub mutate_word-Yields :
      (n : ℕ) (xs : List ℕ) → AreBytes xs → Yields (KeepsIn xs) (mutate_word r n xs)
  unfolding mutate_word
  mutate_word-Yields n xs all =
      if-Yields _ (ltb (length xs) 4) _ _ (λ _. ok-Yields _ _ (refl, all))
        (λ long.
          >>=-Yields _ _ (draw-Yields r is_random n 0 (length xs - 4) (omega arith)) (λ p range.
            >>=-Yields _ _
              (choose-Yields r is_random (λ d. Unit) p.1 byte_deltas (omega arith)
                (unit-All byte_deltas))
              (λ d _.
                let value = from_big 0 (take 4 (drop p.0 xs)) in
                >>=-Yields _ _
                  (pack_into-Yields 4 p.0 (low_bits 32 (pos value +ℤ d.0)) xs
                    (ground (arith, range.1)) (low_bits-lt 32 (pos value +ℤ d.0)) all)
                  (λ changed k. ok-Yields _ _ k))))

  put_interesting-Yields :
      (choice : Bool × ℕ) (i : ℕ) (xs : List ℕ)
      → AreBytes xs
      → i < length xs
      → (choice.0 ≡ true → i + 4 ≤ length xs)
      → Yields (KeepsIn xs) (put_interesting r choice i xs)
  unfolding put_interesting
  put_interesting-Yields (true, n) i xs all inside room =
      >>=-Yields _ _
        (choose-Yields r is_random (λ v. v < 2 ^ 32) n interesting_32 (omega arith) are_words)
        (λ v small.
          >>=-Yields _ _ (pack_into-Yields 4 i v.0 xs (room refl) small all)
            (λ out k. ok-Yields _ _ k))
  put_interesting-Yields (false, n) i xs all inside room =
      if-Yields _ (leb (i + 2) (length xs)) _ _
        (λ fits.
          >>=-Yields _ _
            (choose-Yields r is_random (λ v. v < 2 ^ 16) n interesting_16 (omega arith) are_halves)
            (λ v small.
              >>=-Yields _ _ (pack_into-Yields 2 i v.0 xs (ground arith) small all)
                (λ out k. ok-Yields _ _ k)))
        (λ _.
          >>=-Yields _ _
            (choose-Yields r is_random (λ v. v < 256) n interesting_8 (omega arith) are_bytes)
            (λ v small.
              >>=-Yields _ _ (set_at-Yields i v.0 xs inside small all) (λ out k. ok-Yields _ _ k)))

  pub mutate_interesting-Yields :
      (n : ℕ) (xs : List ℕ) → AreBytes xs → Yields (KeepsIn xs) (mutate_interesting r n xs)
  unfolding mutate_interesting
  mutate_interesting-Yields n xs all =
      if-Yields _ (ltb (length xs) 2) _ _ (λ _. ok-Yields _ _ (refl, all))
        (λ long.
          >>=-Yields _ _ (draw-Yields r is_random n 0 (length xs - 2) (omega arith)) (λ p range.
            put_interesting-Yields (takes_word r p.1 p.0 (length xs)) p.0 xs all
              (ground (arith, range.1)) (ground arith)))
