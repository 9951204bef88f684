-- ===== src/Protocol/RoundTrip/Fields.antt =====
-- One field, written and read back.
use fuzzing_framework.Prelude.{
  ℕ, ◌+◌, ◌*◌, ◌/◌, ◌^◌, ◌≤◌, ◌≡◌, sym, ap, ap₂, ◌∙◌, subst, false, Option, some, List, arith,
  length, replicate, take, drop,
}
use fuzzing_framework.Prelude.Int.{ℤ, pos, low_bits}
use fuzzing_framework.Result.{ok}
use fuzzing_framework.Transform.Invert.{low_bits-lt}
use fuzzing_framework.Protocol.Model.{
  Value, int, bytes, FieldType, bits_type, bytes_type, uint_type, int_type, Width, msb, Block,
  Fields,
}
use fuzzing_framework.Protocol.Integers.{wrap}
use fuzzing_framework.Protocol.BitString.{AreBytes, bit_length, to_number, bits_at}
use fuzzing_framework.Protocol.Parse.{Codec, is_little, align, parse_field, extract_bits}
use fuzzing_framework.Protocol.Serialize.{
  Writer, flush, extend, push, emit_all, write_bits, fit_bytes,
}
use fuzzing_framework.Protocol.Serialize.Writing.{IsTidy, Grows, Grows-trans, emitted-Grows}
use fuzzing_framework.Protocol.Serialize.Flushing.{flush-IsFlushed, extend-Grows}
use fuzzing_framework.Protocol.RoundTrip.Within.{Within, bits_at-Grows, slice-Grows}
use fuzzing_framework.Protocol.RoundTrip.Extract.{extract_bits-msb}

-- The blocks of the round trip: bits in the default orders, integers of every type name, and bytes
-- of a fixed size.
pub data IsPlain (b : Block) : Type 0 where
  bits_field :
      (n : ℕ)
      → b.type ≡ bits_type
      → b.size ≡ some n
      → b.bit_order ≡ msb
      → is_little b.endian ≡ false
      → IsPlain b
  uint_field : (w : Width) → b.type ≡ uint_type w → IsPlain b
  int_field : (w : Width) → b.type ≡ int_type w → IsPlain b
  bytes_field : (n : ℕ) → b.type ≡ bytes_type → b.size ≡ some n → IsPlain b

-- A value of type `bytes` holds bytes.
abbrev pub HoldsBytes : Value → Type 0
HoldsBytes (bytes bs) = AreBytes bs
HoldsBytes _ = Unit

abbrev masked : Option ℕ → Value → Value
masked (some n) (int v) = int (pos (low_bits n v))
masked _ v = v

abbrev wrapped : FieldType → Value → Value
wrapped t (int v) = int (wrap t v)
wrapped t v = v

abbrev fitted : Option ℕ → Value → Value
fitted size (bytes bs) = bytes (fit_bytes size bs)
fitted size (int (pos n)) = bytes (fit_bytes size (replicate n 0))
fitted size v = v

-- What the parser returns for a value: masked to the bits of the field, wrapped around to the width
-- of an unsigned integer, and padded or cut to the size of a byte field.
unfoldable pub read_back : Block → Value → Value
unfolding fit_bytes
read_back b v = elim b.type [
  | bits_type ↦ masked b.size v
  | uint_type w ↦ wrapped b.type v
  | bytes_type ↦ fitted b.size v
  | _ ↦ v
]

-- A step that wrote a field: the next field begins where the parser goes on, and on every message
-- that begins with what is written the parser reads the field.
pub record IsWritten (codec : Codec) (b : Block) (v : Value) (w w' : Writer) : Type 0 where
  pub tidy : IsTidy w'
  pub more : ℕ
  pub low : ℕ
  pub grows : Grows w w' more low
  pub read :
      (blocks : List Block) (bs : List ℕ) (parsed : Fields)
      → Within w' bs
      → parse_field codec blocks bs w.bit_offset b parsed ≡ ok (read_back b v, w'.bit_offset)

-- The parser's side of each type of field.
parse_bits :
    (codec : Codec) (blocks : List Block) (bs : List ℕ) (offset n x : ℕ) (b : Block)
    (parsed : Fields)
    → b.type ≡ bits_type
    → b.size ≡ some n
    → extract_bits bs offset n b.bit_order b.endian ≡ ok (pos x, n)
    → parse_field codec blocks bs offset b parsed ≡ ok (int (pos x), offset + n)
unfolding parse_field
parse_bits codec blocks bs offset n x b parsed ty sz e = ground arith

read_back-bits :
    (b : Block) (n : ℕ) (i : ℤ)
    → b.type ≡ bits_type
    → b.size ≡ some n
    → read_back b (int i) ≡ int (pos (low_bits n i))
unfolding read_back
read_back-bits b n i ty sz = ground arith

module _ (codec : Codec) (b : Block) (w : Writer) (t : IsTidy w) where
  -- a field of bits
  pub bits-IsWritten :
      (n : ℕ) (i : ℤ) (w' : Writer)
      → b.type ≡ bits_type
      → b.size ≡ some n
      → b.bit_order ≡ msb
      → is_little b.endian ≡ false
      → w' ≡ write_bits i n msb b.endian w
      → IsWritten codec b (int i) w w'
  bits-IsWritten n i w' ty sz order endian e =
      let v = low_bits n i in
      let pushed = push msb n v w in
      let emitted = emit_all pushed.bits_in_buffer msb pushed in
      let w₁ : Writer = record emitted { bit_offset = emitted.bit_offset + n } in
      let (g, tidy) = emitted-Grows n v w (low_bits-lt n i) t in
      let same : w' ≡ w₁ = e ∙ unfold write_bits in ground arith in
      let grows : Grows w w₁ n v = record {
        tail = g.tail;
        grown = g.grown;
        small = g.small;
        value = g.value;
        count = g.count;
      } in
      let ahead : w₁.bit_offset ≡ w.bit_offset + n =
        omega (arith, tidy.counted, grows.count, t.counted) in
      subst (IsWritten codec b (int i) w) (sym same) (record {
        tidy = tidy;
        more = n;
        low = v;
        grows = grows;
        read = λ blocks bs parsed h.
            let fits : w.bit_offset + n ≤ bit_length bs =
              omega (arith, h.count, grows.count, t.counted) in
            let here : bits_at bs w.bit_offset n ≡ v =
              ap (λ (k : ℕ). bits_at bs k n) t.counted ∙ bits_at-Grows grows h in
            let found : extract_bits bs w.bit_offset n b.bit_order b.endian ≡ ok (pos v, n) =
              ap (λ o. extract_bits bs w.bit_offset n o b.endian) order
              ∙ extract_bits-msb bs w.bit_offset n h.are_bytes fits b.endian endian
              ∙ ap (λ (k : ℕ). ok (pos k, n)) here in
            parse_bits codec blocks bs w.bit_offset n v b parsed ty sz found
            ∙ ap₂ (λ x k. ok (x, k)) (sym (read_back-bits b n i ty sz)) (sym ahead);
      })

  -- whole bytes behind a flush
  pub bytes-IsWritten :
      (v : Value) (part : List ℕ)
      → AreBytes part
      → ((blocks : List Block) (bs : List ℕ) (parsed : Fields) (offset : ℕ)
          → offset ≡ align w.bit_offset
          → offset / 8 + length part ≤ length bs
          → take (length part) (drop (offset / 8) bs) ≡ part
          → parse_field codec blocks bs w.bit_offset b parsed
            ≡ ok (read_back b v, offset + length part * 8))
      → IsWritten codec b v w (extend (flush w) part)
  bytes-IsWritten v part h reads =
      let f = flush-IsFlushed w t in
      let (grows, tidy) = extend-Grows (flush w) part h f.tidy f.empty in
      record {
        tidy = tidy;
        more = f.padding + bit_length part;
        low = 0 * 2 ^ bit_length part + to_number part;
        grows = Grows-trans f.grows grows;
        read = λ blocks bs parsed m.
            let start : (flush w).bit_offset / 8 ≡ length (flush w).result =
              omega (arith, f.tidy.counted, f.empty) in
            let room : length (flush w).result + length part ≤ length bs =
              omega (arith, m.count, grows.count, f.empty) in
            reads blocks bs parsed (flush w).bit_offset f.aligned
              (subst (λ k. k + length part ≤ length bs) (sym start) room)
              (ap (λ (k : ℕ). take (length part) (drop k bs)) start
                ∙ slice-Grows (flush w).result part m.tail bs m.whole);
      }
