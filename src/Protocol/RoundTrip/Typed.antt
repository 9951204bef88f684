-- ===== src/Protocol/RoundTrip/Typed.antt =====
-- A field of each type, from the success of `serialize_field`.
use fuzzing_framework.Prelude.{
  ℕ, zero, suc, ◌+◌, ◌-◌, ◌*◌, ◌/◌, ◌≤◌, ◌<◌, ◌≡◌, refl, sym, ap, ap₂, ◌∙◌, subst, true, false,
  Bool-cases, inl, inr, some, List, arith, length, length-append, length-take, length-replicate,
  replicate, All-append, All-take, take, drop, ltb,
}
use fuzzing_framework.Prelude.Int.{ℤ, pos, negsuc}
use fuzzing_framework.Result.{Result, ok, ◌>>=◌, >>=-eq-ok}
use fuzzing_framework.Protocol.Model.{
  Value, null, int, bytes, str, bits_type, bytes_type, uint_type, int_type, Width, Block, Fields,
  Error,
}
use fuzzing_framework.Protocol.Integers.{
  get_integer_info, wrap, pack, unpack, serialize_integer_field, parse_integer_field,
}
use fuzzing_framework.Protocol.Integers.RoundTrip.{unpack-pack, get_integer_info-size}
use fuzzing_framework.Protocol.BitString.{AreBytes}
use fuzzing_framework.Protocol.Parse.{Codec, align, parse_field}
use fuzzing_framework.Protocol.Serialize.{
  Writer, flush, extend, write_bits, fit_bytes, serialize_bytes_field, serialize_field,
}
use fuzzing_framework.Protocol.Serialize.Writing.{IsTidy}
use fuzzing_framework.Protocol.RoundTrip.Fields.{
  IsPlain, bits_field, uint_field, int_field, bytes_field, HoldsBytes, read_back, IsWritten,
  bits-IsWritten, bytes-IsWritten,
}

zeros : (n : ℕ) → AreBytes (replicate n 0)
zeros zero = tt
zeros (suc n) = (omega arith, zeros n)

-- Fitting to a size gives exactly that many bytes.
pub fit_bytes-length : (n : ℕ) (bs : List ℕ) → length (fit_bytes (some n) bs) ≡ n
unfolding fit_bytes
fit_bytes-length n bs = elim (Bool-cases (ltb (length bs) n)) [
  | inl shorter ↦ rw shorter (
      omega (
        arith,
        length-append {0} bs (replicate (n - length bs) 0),
        length-replicate {0} {A = ℕ} (n - length bs) 0,
        short n (length bs) shorter,
      ))
  | inr longer ↦ rw longer (omega (arith, length-take {0} n bs, long n (length bs) longer))
]
  where
    short : (n k : ℕ) → ltb k n ≡ true → k < n
    short n k h = ground arith

    long : (n k : ℕ) → ltb k n ≡ false → n ≤ k
    long n k h = ground arith

fit_bytes-AreBytes : (n : ℕ) (bs : List ℕ) → AreBytes bs → AreBytes (fit_bytes (some n) bs)
unfolding fit_bytes
fit_bytes-AreBytes n bs h = elim (Bool-cases (ltb (length bs) n)) [
  | inl shorter ↦
      rw shorter (All-append _ bs (replicate (n - length bs) 0) h (zeros (n - length bs)))
  | inr longer ↦ rw longer (All-take _ n bs h)
]

abbrev then_integer : ℕ → Result Error (ℤ × ℕ) → Result Error (Value × ℕ)
then_integer start r = do (value, consumed) ← r; ok (int value, align start + consumed * 8)

abbrev then_extend : Writer → Result Error (List ℕ) → Result Error Writer
then_extend w r = do part ← r; ok (extend (flush w) part)

-- The parser's side of the fields that stand on whole bytes.
module _ (codec : Codec) (blocks : List Block) (bs : List ℕ) (start : ℕ) (b : Block)
    (parsed : Fields) where
  parse_uint :
      (w : Width)
      → b.type ≡ uint_type w
      → parse_field codec blocks bs start b parsed
        ≡ then_integer start (parse_integer_field bs (align start / 8) b)
  unfolding parse_field
  parse_uint w ty = ground arith

  parse_int :
      (w : Width)
      → b.type ≡ int_type w
      → parse_field codec blocks bs start b parsed
        ≡ then_integer start (parse_integer_field bs (align start / 8) b)
  unfolding parse_field
  parse_int w ty = ground arith

  parse_bytes :
      (n : ℕ)
      → b.type ≡ bytes_type
      → b.size ≡ some n
      → align start / 8 + n ≤ length bs
      → parse_field codec blocks bs start b parsed
        ≡ ok (bytes (take n (drop (align start / 8) bs)), align start + n * 8)
  unfolding parse_field
  parse_bytes n ty sz fits = ground arith

parse_integer_field_lem :
    (bs : List ℕ) (offset : ℕ) (b : Block)
    → offset + (get_integer_info b.type).size ≤ length bs
    → parse_integer_field bs offset b
      ≡ ok (
        unpack
            (get_integer_info b.type)
            b.endian
            (take (get_integer_info b.type).size (drop offset bs)),
        (get_integer_info b.type).size,
      )
unfolding parse_integer_field
parse_integer_field_lem bs offset b fits = ground arith

parse_integer_field-part :
    (bs part : List ℕ) (offset : ℕ) (v : ℤ) (b : Block)
    → length part ≡ (get_integer_info b.type).size
    → unpack (get_integer_info b.type) b.endian part ≡ v
    → offset + length part ≤ length bs
    → take (length part) (drop offset bs) ≡ part
    → parse_integer_field bs offset b ≡ ok (v, length part)
parse_integer_field-part bs part offset v b size read fits here =
    parse_integer_field_lem bs offset b (subst (λ n. offset + n ≤ length bs) size fits)
    ∙ ap (λ n. ok (unpack (get_integer_info b.type) b.endian (take n (drop offset bs)), n))
        (sym size)
    ∙ ap (λ l. ok (unpack (get_integer_info b.type) b.endian l, length part)) here
    ∙ ap (λ x. ok (x, length part)) read

-- Inversion of `serialize_field` for each type.
module _ (codec : Codec) (b : Block) (v : Value) (w w' : Writer)
    (e : serialize_field codec b v w ≡ ok w') where
  serialize-bits :
      (n : ℕ)
      → b.type ≡ bits_type
      → b.size ≡ some n
      → (i : ℤ) × (v ≡ int i) × (w' ≡ write_bits i n b.bit_order b.endian w)
  serialize-bits n ty sz = unfold serialize_field in go v refl
    where
      go :
          (u : Value) → v ≡ u → (i : ℤ) × (v ≡ int i) × (w' ≡ write_bits i n b.bit_order b.endian w)
      go null p = absurd (unfold serialize_field in ground arith)
      go (int i) p = (i, p, unfold serialize_field in ground arith)
      go (bytes x) p = absurd (unfold serialize_field in ground arith)
      go (str x) p = absurd (unfold serialize_field in ground arith)

  serialize-uint :
      (k : Width) → b.type ≡ uint_type k → then_extend w (serialize_integer_field v b) ≡ ok w'
  serialize-uint k ty = unfold serialize_field in ground arith

  serialize-int :
      (k : Width) → b.type ≡ int_type k → then_extend w (serialize_integer_field v b) ≡ ok w'
  serialize-int k ty = unfold serialize_field in ground arith

  serialize-bytes : b.type ≡ bytes_type → then_extend w (serialize_bytes_field v b) ≡ ok w'
  serialize-bytes ty = unfold serialize_field in ground arith

serialize_integer-eq-ok :
    (v : Value) (b : Block) {part : List ℕ}
    → serialize_integer_field v b ≡ ok part
    → (i : ℤ) × (v ≡ int i) × (pack (get_integer_info b.type) b.endian (wrap b.type i) ≡ ok part)
unfolding serialize_integer_field
serialize_integer-eq-ok (int i) b e = (i, refl, e)
serialize_integer-eq-ok null b e = cc
serialize_integer-eq-ok (bytes x) b e = cc
serialize_integer-eq-ok (str x) b e = cc

serialize_bytes-eq-ok :
    (v : Value) (b : Block) (n : ℕ) {part : List ℕ}
    → b.type ≡ bytes_type
    → b.size ≡ some n
    → HoldsBytes v
    → serialize_bytes_field v b ≡ ok part
    → (read_back b v ≡ bytes part) × (length part ≡ n) × AreBytes part
serialize_bytes-eq-ok null b n ty sz h e = absurd (unfold serialize_bytes_field in cc e)
serialize_bytes-eq-ok (str x) b n ty sz h e = absurd (unfold serialize_bytes_field in cc e)
serialize_bytes-eq-ok (int (negsuc k)) b n ty sz h e = absurd (unfold serialize_bytes_field in cc e)
serialize_bytes-eq-ok (bytes x) b n {part} ty sz h e =
    let same : part ≡ fit_bytes (some n) x = unfold serialize_bytes_field in ground arith in
    rw same (unfold read_back in ground arith, fit_bytes-length n x, fit_bytes-AreBytes n x h)
serialize_bytes-eq-ok (int (pos k)) b n {part} ty sz h e =
    let same : part ≡ fit_bytes (some n) (replicate k 0) =
      unfold serialize_bytes_field in ground arith in
    rw same (
      unfold read_back in ground arith,
      fit_bytes-length n (replicate k 0),
      fit_bytes-AreBytes n (replicate k 0) (zeros k),
    )

read_back-uint :
    (b : Block) (k : Width) (i : ℤ)
    → b.type ≡ uint_type k
    → read_back b (int i) ≡ int (wrap b.type i)
unfolding read_back
read_back-uint b k i ty = ground arith

read_back-int :
    (b : Block) (k : Width) (i : ℤ)
    → b.type ≡ int_type k
    → read_back b (int i) ≡ int (wrap b.type i)
unfolding read_back
read_back-int b k i ty = ground arith

module _ (codec : Codec) (b : Block) (w w' : Writer) (t : IsTidy w) where
  integer-IsWritten :
      (v : Value)
      → ((blocks : List Block) (bs : List ℕ) (parsed : Fields)
          → parse_field codec blocks bs w.bit_offset b parsed
            ≡ then_integer w.bit_offset (parse_integer_field bs (align w.bit_offset / 8) b))
      → ((i : ℤ) → read_back b (int i) ≡ int (wrap b.type i))
      → then_extend w (serialize_integer_field v b) ≡ ok w'
      → IsWritten codec b v w w'
  integer-IsWritten v reads back e =
      let (part, packed, ends) =
        >>=-eq-ok (serialize_integer_field v b) (λ p. ok (extend (flush w) p)) e in
      let (i, is_int, fits) = serialize_integer-eq-ok v b packed in
      let info = get_integer_info b.type in
      let (unpacked, size, are_bytes) =
        unpack-pack info b.endian (wrap b.type i) (get_integer_info-size b.type) fits in
      let same : w' ≡ extend (flush w) part = cc ends in
      subst (λ u. IsWritten codec b u w w') (sym is_int)
        (subst (IsWritten codec b (int i) w) (sym same) (
          bytes-IsWritten codec b w t (int i) part are_bytes λ blocks bs parsed offset at room here.
            let start : offset / 8 ≡ align w.bit_offset / 8 = ap (λ (k : ℕ). k / 8) at in
            reads blocks bs parsed
            ∙ ap (then_integer w.bit_offset) (
                parse_integer_field-part bs part (align w.bit_offset / 8) (wrap b.type i) b size
                  unpacked (subst (λ k. k + length part ≤ length bs) start room)
                  (subst (λ k. take (length part) (drop k bs) ≡ part) start here))
            ∙ ap₂ (λ x k. ok (x, k + length part * 8)) (sym (back i)) (sym at)))

  plain_bytes-IsWritten :
      (v : Value) (n : ℕ)
      → b.type ≡ bytes_type
      → b.size ≡ some n
      → HoldsBytes v
      → serialize_field codec b v w ≡ ok w'
      → IsWritten codec b v w w'
  plain_bytes-IsWritten v n ty sz h e =
      let (part, made, ends) =
        >>=-eq-ok (serialize_bytes_field v b) (λ p. ok (extend (flush w) p))
          (serialize-bytes codec b v w w' e ty) in
      let (back, size, are_bytes) = serialize_bytes-eq-ok v b n ty sz h made in
      let same : w' ≡ extend (flush w) part = cc ends in
      subst (IsWritten codec b v w) (sym same) (
        bytes-IsWritten codec b w t v part are_bytes λ blocks bs parsed offset at room here.
          let start : offset / 8 ≡ align w.bit_offset / 8 = ap (λ (k : ℕ). k / 8) at in
          parse_bytes codec blocks bs w.bit_offset b parsed n ty sz
            (omega (arith, start, room, size))
          ∙ ap₂ (λ (k m : ℕ). ok (bytes (take k (drop m bs)), align w.bit_offset + k * 8))
              (sym size) (sym start)
          ∙ ap₂ (λ l k. ok (bytes l, k + length part * 8)) here (sym at)
          ∙ ap (λ x. ok (x, offset + length part * 8)) (sym back))

  -- Every plain field that is written is read back.
  pub field-IsWritten :
      (v : Value)
      → IsPlain b
      → HoldsBytes v
      → serialize_field codec b v w ≡ ok w'
      → IsWritten codec b v w w'
  field-IsWritten v (bits_field n ty sz order endian) h e =
      let (i, is_int, ends) = serialize-bits codec b v w w' e n ty sz in
      subst (λ u. IsWritten codec b u w w') (sym is_int)
        (bits-IsWritten codec b w t n i w' ty sz order endian
          (ends ∙ ap (λ o. write_bits i n o b.endian w) order))
  field-IsWritten v (uint_field k ty) h e =
      integer-IsWritten v
        (λ blocks bs parsed. parse_uint codec blocks bs w.bit_offset b parsed k ty)
        (λ i. read_back-uint b k i ty) (serialize-uint codec b v w w' e k ty)
  field-IsWritten v (int_field k ty) h e =
      integer-IsWritten v (λ blocks bs parsed. parse_int codec blocks bs w.bit_offset b parsed k ty)
        (λ i. read_back-int b k i ty) (serialize-int codec b v w w' e k ty)
  field-IsWritten v (bytes_field n ty sz) h e = plain_bytes-IsWritten v n ty sz h e
