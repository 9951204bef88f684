-- ===== src/Protocol/Serialize/Flushing.antt =====
-- What flushing and whole bytes add to the message.
use native.Mathlib.Nat.{mod-eq_of_lt, mul-le-mul_right}
use fuzzing_framework.Prelude.{
  ℕ, ◌+◌, ◌-◌, ◌*◌, ◌^◌, ◌<◌, ◌≡◌, refl, sym, ap, ◌∙◌, subst, List, [], ◌∷◌, ◌++◌, arith,
  All-append, inl, inr, Bool-cases, ltb,
}
use fuzzing_framework.Prelude.Powers.{two-pow-pos, two-pow-add, join_assoc}
use fuzzing_framework.Protocol.Serialize.Writing.{written, IsSound, IsTidy, Grows, Grows-refl}
use fuzzing_framework.Protocol.BitString.{
  AreBytes, bit_length, to_number, to_number-append, to_number-lt, bit_length-append, one_byte,
}
use fuzzing_framework.Protocol.Parse.{align, pad_to_byte}
use fuzzing_framework.Protocol.Serialize.{Writer, flush, extend}

full_byte : (n : ℕ) → n < 8 → 2 ^ (n + (8 - n)) ≡ 256
full_byte n h = let e : n + (8 - n) ≡ 8 = omega arith in ap (λ (m : ℕ). 2 ^ m) e

padded_byte : (n b : ℕ) → n < 8 → b < 2 ^ n → b * 2 ^ (8 - n) < 256
padded_byte n b h k =
    subst (λ m. b * 2 ^ (8 - n) < m) (sym (two-pow-add n (8 - n)) ∙ full_byte n h)
      (omega (arith, mul-le-mul_right (2 ^ (8 - n)) k, two-pow-pos (8 - n)))

-- What `flush` does to a buffer of 1 to 7 bits, and to an empty one.
flush-pending :
    (w : Writer)
    → 0 < w.bits_in_buffer
    → IsTidy w
    → flush w ≡ record {
      result = w.result ++ (w.bit_buffer * 2 ^ (8 - w.bits_in_buffer)) ∷ [];
      bit_offset = pad_to_byte w.bit_offset;
      bit_buffer = 0;
      bits_in_buffer = 0;
    }
unfolding flush
flush-pending w h t =
    ground (
      arith,
      t.short,
      mod-eq_of_lt (padded_byte w.bits_in_buffer w.bit_buffer t.short t.sound.fits),
    )

flush-empty : (w : Writer) → w.bits_in_buffer ≡ 0 → flush w ≡ w
unfolding flush
flush-empty w h = ground arith

padded_value :
    (w : Writer)
    → IsTidy w
    → (to_number w.result * 256 + w.bit_buffer * 2 ^ (8 - w.bits_in_buffer)) * 1 + 0
      ≡ written w * 2 ^ (8 - w.bits_in_buffer) + 0
padded_value w t =
    let moved =
      join_assoc w.bits_in_buffer (8 - w.bits_in_buffer) (to_number w.result) w.bit_buffer 0 in
    omega
      (arith, moved, ap (λ (m : ℕ). to_number w.result * m) (full_byte w.bits_in_buffer t.short))

-- Flushing pads with zeros up to the next byte, which is where the parser aligns.
pub record IsFlushed (w w' : Writer) : Type 0 where
  pub padding : ℕ
  pub grows : Grows w w' padding 0
  pub tidy : IsTidy w'
  pub empty : w'.bits_in_buffer ≡ 0
  pub aligned : w'.bit_offset ≡ align w.bit_offset

pub flush-IsFlushed : (w : Writer) → IsTidy w → IsFlushed w (flush w)
flush-IsFlushed w t = elim (Bool-cases (ltb 0 w.bits_in_buffer)) [
  | inl some_bits ↦
      let h : 0 < w.bits_in_buffer = ground arith in
      let byte = w.bit_buffer * 2 ^ (8 - w.bits_in_buffer) in
      let small = padded_byte w.bits_in_buffer w.bit_buffer t.short t.sound.fits in
      rw (flush-pending w h t) (record {
        padding = 8 - w.bits_in_buffer;
        grows = record {
          tail = byte ∷ [];
          grown = refl;
          small = two-pow-pos (8 - w.bits_in_buffer);
          value =
              ap (λ (m : ℕ). m * 1 + 0)
                (to_number-append w.result (byte ∷ []) (small, tt)
                  ∙ ap (λ (m : ℕ). to_number w.result * 256 + m) (one_byte byte))
              ∙ padded_value w t;
          count = omega (arith, bit_length-append w.result (byte ∷ []), t.short);
        };
        tidy = record {
          sound = record {
            are_bytes = All-append _ w.result (byte ∷ []) t.sound.are_bytes (small, tt);
            fits = omega arith;
          };
          short = omega arith;
          counted = omega (arith, t.counted, t.short, bit_length-append w.result (byte ∷ []));
        };
        empty = refl;
        aligned = unfold align in ground (arith, t.counted, t.short);
      })
  | inr none_left ↦
      let h : w.bits_in_buffer ≡ 0 = ground arith in
      rw (flush-empty w h) (record {
        padding = 0;
        grows = Grows-refl w;
        tidy = t;
        empty = h;
        aligned = unfold align in ground (arith, t.counted);
      })
]

empty_buffer : (w : Writer) → IsSound w → w.bits_in_buffer ≡ 0 → w.bit_buffer ≡ 0
empty_buffer w s e =
    let fits : w.bit_buffer < 1 = subst (λ n. w.bit_buffer < 2 ^ n) e s.fits in omega arith

pub plain_value : (w : Writer) → IsSound w → w.bits_in_buffer ≡ 0 → written w ≡ to_number w.result
plain_value w s e =
    let one : to_number w.result * 2 ^ w.bits_in_buffer ≡ to_number w.result * 1 =
      ap (λ (m : ℕ). to_number w.result * 2 ^ m) e in
    omega (arith, one, empty_buffer w s e)

-- Whole bytes behind a flushed buffer.
pub extend-Grows :
    (w : Writer) (bs : List ℕ)
    → AreBytes bs
    → IsTidy w
    → w.bits_in_buffer ≡ 0
    → Grows w (extend w bs) (bit_length bs) (to_number bs) × IsTidy (extend w bs)
extend-Grows w bs h t e =
    let sound : IsSound (extend w bs) = record {
      are_bytes = All-append _ w.result bs t.sound.are_bytes h;
      fits = t.sound.fits;
    } in
    (
      record {
        tail = bs;
        grown = refl;
        small = to_number-lt bs h;
        value =
            plain_value (extend w bs) sound e
            ∙ to_number-append w.result bs h
            ∙ ap (λ (m : ℕ). m * 2 ^ bit_length bs + to_number bs) (sym (plain_value w t.sound e));
        count = omega (arith, bit_length-append w.result bs);
      },
      record {
        sound = sound;
        short = t.short;
        counted = omega (arith, t.counted, bit_length-append w.result bs);
      },
    )
