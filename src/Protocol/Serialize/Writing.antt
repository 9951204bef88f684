-- ===== src/Protocol/Serialize/Writing.antt =====
-- What each step of the serializer adds to the message, read as one number.
use native.Mathlib.Nat.{div-add-mod', div-lt_iff_lt-mul, mod-lt, mod-eq_of_lt, le_refl}
use fuzzing_framework.Prelude.{
  ℕ, zero, suc, ◌+◌, ◌-◌, ◌*◌, ◌/◌, ◌%◌, ◌^◌, ◌<◌, ◌≤◌, ◌≡◌, refl, sym, ap, ap₂, ◌∙◌, subst, List,
  [], ◌∷◌, ◌++◌, append-nil, append_assoc, arith, All-append, leb, inl, inr, Bool-cases,
}
use fuzzing_framework.Prelude.Bits.{bit_or_fields}
use fuzzing_framework.Prelude.Powers.{two-pow-pos, two-pow-add, join_lt, join_assoc}
use fuzzing_framework.Protocol.Model.{msb}
use fuzzing_framework.Protocol.BitString.{
  AreBytes, bit_length, to_number, to_number-append, bit_length-append, one_byte,
}
use fuzzing_framework.Protocol.Serialize.{Writer, emit, emit_all, push}

-- All the bits that are written, the buffer's included.
abbrev pub written : Writer → ℕ
written w = to_number w.result * 2 ^ w.bits_in_buffer + w.bit_buffer

abbrev pub bits_written : Writer → ℕ
bits_written w = bit_length w.result + w.bits_in_buffer

-- The buffer holds no more than its bits.
pub record IsSound (w : Writer) : Type 0 where
  pub are_bytes : AreBytes w.result
  pub fits : w.bit_buffer < 2 ^ w.bits_in_buffer

-- Between two fields: the buffer has less than a byte, and `bit_offset` counts what is written.
pub record IsTidy (w : Writer) : Type 0 where
  pub sound : IsSound w
  pub short : w.bits_in_buffer < 8
  pub counted : w.bit_offset ≡ bits_written w

-- From `w` to `w'` the message has grown at its end, by `more` bits that hold the number `low`.
pub record Grows (w w' : Writer) (more low : ℕ) : Type 0 where
  pub tail : List ℕ
  pub grown : w'.result ≡ w.result ++ tail
  pub small : low < 2 ^ more
  pub value : written w' ≡ written w * 2 ^ more + low
  pub count : bits_written w' ≡ bits_written w + more

pub Grows-refl : (w : Writer) → Grows w w 0 0
Grows-refl w = record {
  tail = [];
  grown = sym (append-nil w.result);
  small = omega arith;
  value = omega arith;
  count = omega arith;
}

pub Grows-trans :
    {u v w : Writer} {m n a b : ℕ}
    → Grows u v m a
    → Grows v w n b
    → Grows u w (m + n) (a * 2 ^ n + b)
Grows-trans {u} {v} {w} {m} {n} {a} {b} g h = record {
  tail = g.tail ++ h.tail;
  grown = h.grown ∙ ap (λ l. l ++ h.tail) g.grown ∙ append_assoc u.result g.tail h.tail;
  small = join_lt m n a b g.small h.small;
  value = h.value ∙ ap (λ (k : ℕ). k * 2 ^ n + b) g.value ∙ join_assoc m n (written u) a b;
  count = omega (arith, g.count, h.count);
}

-- Bits move from the buffer to the message, and none changes.
pub record Moves (w w' : Writer) : Type 0 where
  pub tail : List ℕ
  pub grown : w'.result ≡ w.result ++ tail
  pub sound : IsSound w'
  pub same : written w' ≡ written w
  pub count : bits_written w' ≡ bits_written w
  pub offset : w'.bit_offset ≡ w.bit_offset

Moves-refl : (w : Writer) → IsSound w → Moves w w
Moves-refl w s = record {
  tail = [];
  grown = sym (append-nil w.result);
  sound = s;
  same = refl;
  count = refl;
  offset = refl;
}

Moves-trans : {u v w : Writer} → Moves u v → Moves v w → Moves u w
Moves-trans {u} {v} {w} g h = record {
  tail = g.tail ++ h.tail;
  grown = h.grown ∙ ap (λ l. l ++ h.tail) g.grown ∙ append_assoc u.result g.tail h.tail;
  sound = h.sound;
  same = h.same ∙ g.same;
  count = h.count ∙ g.count;
  offset = h.offset ∙ g.offset;
}

module _ (w : Writer) (s : IsSound w) (left : ℕ) (enough : w.bits_in_buffer ≡ 8 + left) where
  top_byte : w.bit_buffer / 2 ^ left < 256
  top_byte =
      (div-lt_iff_lt-mul (two-pow-pos left)).1
        (subst (λ m. w.bit_buffer < m) (ap (λ (m : ℕ). 2 ^ m) enough ∙ two-pow-add 8 left) s.fits)

  top_moves :
      to_number (w.result ++ w.bit_buffer / 2 ^ left ∷ []) * 2 ^ left + w.bit_buffer % 2 ^ left
      ≡ written w
  top_moves =
      ap (λ (m : ℕ). m * 2 ^ left + w.bit_buffer % 2 ^ left)
        (to_number-append w.result (w.bit_buffer / 2 ^ left ∷ []) (top_byte, tt)
          ∙ ap (λ (m : ℕ). to_number w.result * 2 ^ 8 + m) (one_byte (w.bit_buffer / 2 ^ left)))
      ∙ join_assoc 8 left (to_number w.result) (w.bit_buffer / 2 ^ left) (w.bit_buffer % 2 ^ left)
      ∙ ap₂ (λ (m n : ℕ). to_number w.result * 2 ^ m + n) (sym enough)
          (div-add-mod' w.bit_buffer (2 ^ left))

  emit-Moves : Moves w (emit msb w)
  unfolding emit
  emit-Moves =
      let spare : w.bits_in_buffer - 8 ≡ left = omega arith in
      rw (spare, mod-eq_of_lt top_byte)
        (record {
          tail = w.bit_buffer / 2 ^ left ∷ [];
          grown = refl;
          sound = record {
            are_bytes =
                All-append _ w.result (w.bit_buffer / 2 ^ left ∷ []) s.are_bytes (top_byte, tt);
            fits = mod-lt w.bit_buffer (two-pow-pos left);
          };
          same = top_moves;
          count = omega (arith, bit_length-append w.result (w.bit_buffer / 2 ^ left ∷ []));
          offset = refl;
        })

-- In the default bit order, with `bits_in_buffer` rounds of fuel or more, the loop ends with less than a
-- byte in the buffer: whole bytes have moved to the end of the message, and the bits that are written,
-- buffer included, are the same number as before, with the same count and offset.
pub emit_all-Moves :
    (fuel : ℕ) (w : Writer)
    → IsSound w
    → w.bits_in_buffer ≤ fuel
    → Moves w (emit_all fuel msb w) × ((emit_all fuel msb w).bits_in_buffer < 8)
unfolding emit_all
emit_all-Moves zero w s h = (Moves-refl w s, omega arith)
emit_all-Moves (suc fuel) w s h = elim (Bool-cases (leb 8 w.bits_in_buffer)) [
  | inl more ↦
      let first = emit-Moves w s (w.bits_in_buffer - 8) (ground arith) in
      let rest = emit_all-Moves fuel (emit msb w) first.sound (unfold emit in ground arith) in
      rw more (Moves-trans first rest.0, rest.1)
  | inr done ↦ rw done (Moves-refl w s, ground arith)
]

-- Adding a field to the buffer.
push-value :
    (n v : ℕ) (w : Writer)
    → v < 2 ^ n
    → (written (push msb n v w) ≡ written w * 2 ^ n + v)
      × ((push msb n v w).bit_buffer ≡ w.bit_buffer * 2 ^ n + v)
unfolding push
push-value n v w h =
    let joined = bit_or_fields n w.bit_buffer v h in
    (
      ap (λ (m : ℕ). to_number w.result * 2 ^ (w.bits_in_buffer + n) + m) joined
          ∙ sym (join_assoc w.bits_in_buffer n (to_number w.result) w.bit_buffer v),
      joined,
    )

-- The bytes and the offset wait for the loop.
push-result : (n v : ℕ) (w : Writer) → (push msb n v w).result ≡ w.result
unfolding push
push-result n v w = refl

push-bit_offset : (n v : ℕ) (w : Writer) → (push msb n v w).bit_offset ≡ w.bit_offset
unfolding push
push-bit_offset n v w = refl

push-IsSound : (n v : ℕ) (w : Writer) → v < 2 ^ n → IsSound w → IsSound (push msb n v w)
unfolding push
push-IsSound n v w h s = record {
  are_bytes = s.are_bytes;
  fits = rw (bit_or_fields n w.bit_buffer v h) (join_lt w.bits_in_buffer n w.bit_buffer v s.fits h);
}

-- A field of bits, pushed and emitted.
pub emitted-Grows :
    (n v : ℕ) (w : Writer)
    → v < 2 ^ n
    → IsTidy w
    → let pushed = push msb n v w in
      let emitted = emit_all pushed.bits_in_buffer msb pushed in
      Grows w emitted n v × IsTidy (record emitted { bit_offset = emitted.bit_offset + n })
emitted-Grows n v w h t =
    let pushed = push msb n v w in
    let (moved, short) =
      emit_all-Moves pushed.bits_in_buffer pushed (push-IsSound n v w h t.sound)
        (le_refl pushed.bits_in_buffer) in
    let pushed_bits : bits_written pushed ≡ bits_written w + n = unfold push in omega arith in
    (
      record {
        tail = moved.tail;
        grown = moved.grown ∙ ap (λ l. l ++ moved.tail) (push-result n v w);
        small = h;
        value = moved.same ∙ (push-value n v w h).0;
        count = moved.count ∙ pushed_bits;
      },
      record {
        sound = record { are_bytes = moved.sound.are_bytes; fits = moved.sound.fits };
        short = short;
        counted =
            ap (λ (m : ℕ). m + n) (moved.offset ∙ push-bit_offset n v w ∙ t.counted)
            ∙ sym (moved.count ∙ pushed_bits);
      },
    )
