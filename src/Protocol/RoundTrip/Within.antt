-- ===== src/Protocol/RoundTrip/Within.antt =====
-- A message that begins with what a writer has written.
use fuzzing_framework.Prelude.{
  ℕ, ◌+◌, ◌-◌, ◌*◌, ◌/◌, ◌%◌, ◌^◌, ◌<◌, ◌≡◌, sym, ap, ◌∙◌, List, [], ◌++◌, append-nil, append_assoc,
  arith, length, take, drop, take-append, drop-append,
}
use fuzzing_framework.Prelude.Powers.{join_lt, join_assoc, high_part, low_part}
use fuzzing_framework.Protocol.BitString.{AreBytes, bit_length, to_number, bits_at}
use fuzzing_framework.Protocol.Serialize.{Writer}
use fuzzing_framework.Protocol.Serialize.Writing.{written, bits_written, IsTidy, Grows}
use fuzzing_framework.Protocol.Serialize.Flushing.{plain_value}

pub record Within (w : Writer) (bs : List ℕ) : Type 0 where
  pub are_bytes : AreBytes bs
  pub tail : List ℕ
  pub whole : bs ≡ w.result ++ tail
  pub more : ℕ
  pub low : ℕ
  pub small : low < 2 ^ more
  pub number : to_number bs ≡ written w * 2 ^ more + low
  pub count : bit_length bs ≡ bits_written w + more

pub Within-Grows :
    {v w : Writer} {bs : List ℕ} {m l : ℕ} → Grows v w m l → Within w bs → Within v bs
Within-Grows {v} {w} {bs} {m} {l} g h = record {
  are_bytes = h.are_bytes;
  tail = g.tail ++ h.tail;
  whole = h.whole ∙ ap (λ k. k ++ h.tail) g.grown ∙ append_assoc v.result g.tail h.tail;
  more = m + h.more;
  low = l * 2 ^ h.more + h.low;
  small = join_lt m h.more l h.low g.small h.small;
  number =
      h.number
      ∙ ap (λ (n : ℕ). n * 2 ^ h.more + h.low) g.value
      ∙ join_assoc m h.more (written v) l h.low;
  count = omega (arith, g.count, h.count);
}

-- The message of a writer whose buffer is empty.
pub Within-self : (w : Writer) → IsTidy w → w.bits_in_buffer ≡ 0 → Within w w.result
Within-self w t e = record {
  are_bytes = t.sound.are_bytes;
  tail = [];
  whole = sym (append-nil w.result);
  more = 0;
  low = 0;
  small = omega arith;
  number = sym (omega (arith, plain_value w t.sound e));
  count = omega (arith, e);
}

-- The bits of the last step stand in the message where the step began.
pub bits_at-Grows :
    {v w : Writer} {bs : List ℕ} {n x : ℕ}
    → Grows v w n x
    → Within w bs
    → bits_at bs (bits_written v) n ≡ x
bits_at-Grows {v} {w} {bs} {n} {x} g h =
    let behind : bit_length bs - bits_written v - n ≡ h.more = omega (arith, h.count, g.count) in
    ap (λ (k : ℕ). to_number bs / 2 ^ k % 2 ^ n) behind
    ∙ ap (λ (k : ℕ). k / 2 ^ h.more % 2 ^ n) h.number
    ∙ ap (λ (k : ℕ). k % 2 ^ n) (high_part h.more (written w) h.low h.small)
    ∙ ap (λ (k : ℕ). k % 2 ^ n) g.value
    ∙ low_part n (written v) x g.small

-- Whole bytes that the last step appended.
pub slice-Grows :
    (r part tail bs : List ℕ)
    → bs ≡ (r ++ part) ++ tail
    → take (length part) (drop (length r) bs) ≡ part
slice-Grows r part tail bs e =
    ap (λ l. take (length part) (drop (length r) l)) (e ∙ append_assoc r part tail)
    ∙ ap (take (length part)) (drop-append r (part ++ tail))
    ∙ take-append part tail
