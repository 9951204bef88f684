-- ===== src/Protocol/RoundTrip/Message.antt =====
-- A whole message, written and read back.
use fuzzing_framework.Prelude.{
  ℕ, ◌+◌, ◌*◌, ◌^◌, ◌≡◌, refl, ap, ◌∙◌, subst, List, [], ◌∷◌, arith, All,
}
use fuzzing_framework.Result.{ok, ◌>>=◌, >>=-eq-ok, map_err, map_err-eq-ok}
use fuzzing_framework.Dict.{put}
use fuzzing_framework.Protocol.Model.{Value, Block, Fields, in_field}
use fuzzing_framework.Protocol.Parse.{Codec, parse_field, parse_blocks, parse}
use fuzzing_framework.Protocol.Serialize.{
  Writer, empty_writer, flush, field_value, serialize_field, serialize_blocks,
  serialize_fields_to_bytes,
}
use fuzzing_framework.Protocol.Serialize.Writing.{IsTidy, Grows, Grows-refl, Grows-trans}
use fuzzing_framework.Protocol.Serialize.Flushing.{flush-IsFlushed}
use fuzzing_framework.Protocol.RoundTrip.Within.{Within, Within-Grows, Within-self}
use fuzzing_framework.Protocol.RoundTrip.Fields.{IsPlain, HoldsBytes, read_back}
use fuzzing_framework.Protocol.RoundTrip.Typed.{field-IsWritten}

-- The value of each block, in order, as the parser reads it.
unfoldable pub read_back_all : Fields → List Block → Fields → Fields
unfolding read_back field_value
read_back_all fields [] parsed = parsed
read_back_all fields (b ∷ bs) parsed =
    read_back_all fields bs (put b.name (read_back b (field_value b fields)) parsed)

-- Each block is plain, and its value holds bytes where it is a byte string.
abbrev pub ArePlain : Fields → List Block → Type 0
ArePlain fields = All (λ b. IsPlain b × HoldsBytes (field_value b fields))

-- What a run of blocks has written.
record AreWritten (codec : Codec) (fields : Fields) (bs : List Block) (w w' : Writer) : Type 0 where
  tidy : IsTidy w'
  more : ℕ
  low : ℕ
  grows : Grows w w' more low
  read :
      (blocks : List Block) (message : List ℕ) (parsed : Fields)
      → Within w' message
      → parse_blocks codec blocks message bs w.bit_offset parsed
        ≡ ok (read_back_all fields bs parsed)

parse_blocks_lem :
    (codec : Codec) (blocks : List Block) (message : List ℕ) (b : Block) (bs : List Block)
    (offset : ℕ) (parsed : Fields)
    → parse_blocks codec blocks message (b ∷ bs) offset parsed ≡ (
        map_err (in_field b.name) (parse_field codec blocks message offset b parsed) >>= λ found.
        parse_blocks codec blocks message bs found.1 (put b.name found.0 parsed))
unfolding parse_blocks
parse_blocks_lem codec blocks message b bs offset parsed = refl

parse_blocks-cons :
    (codec : Codec) (blocks : List Block) (message : List ℕ) (b : Block) (bs : List Block)
    (offset : ℕ) (parsed : Fields) {v : Value} {offset' : ℕ}
    → parse_field codec blocks message offset b parsed ≡ ok (v, offset')
    → parse_blocks codec blocks message (b ∷ bs) offset parsed
      ≡ parse_blocks codec blocks message bs offset' (put b.name v parsed)
parse_blocks-cons codec blocks message b bs offset parsed {v} {offset'} e =
    parse_blocks_lem codec blocks message b bs offset parsed
    ∙ ap
        (λ r. map_err (in_field b.name) r >>= λ found.
          parse_blocks codec blocks message bs found.1 (put b.name found.0 parsed))
        e

read_back_all-cons :
    (fields : Fields) (b : Block) (bs : List Block) (parsed : Fields)
    → read_back_all fields bs (put b.name (read_back b (field_value b fields)) parsed)
      ≡ read_back_all fields (b ∷ bs) parsed
unfolding read_back_all
read_back_all-cons fields b bs parsed = refl

module _ (codec : Codec) (fields : Fields) where
  serialize_blocks-cons :
      (b : Block) (bs : List Block) (w w' : Writer)
      → serialize_blocks codec fields (b ∷ bs) w ≡ ok w'
      → (map_err (in_field b.name) (serialize_field codec b (field_value b fields) w)
          >>= serialize_blocks codec fields bs)
        ≡ ok w'
  unfolding serialize_blocks
  serialize_blocks-cons b bs w w' e = e

  blocks-AreWritten :
      (bs : List Block) (w w' : Writer)
      → ArePlain fields bs
      → IsTidy w
      → serialize_blocks codec fields bs w ≡ ok w'
      → AreWritten codec fields bs w w'
  blocks-AreWritten [] w w' h t e =
      let same : w ≡ w' = unfold serialize_blocks in cc e in
      subst (AreWritten codec fields [] w) same (record {
        tidy = t;
        more = 0;
        low = 0;
        grows = Grows-refl w;
        read = λ blocks message parsed m. unfold parse_blocks read_back_all in refl;
      })
  blocks-AreWritten (b ∷ bs) w w' h t e =
      let v = field_value b fields in
      let (u, one, rest) =
        >>=-eq-ok (map_err (in_field b.name) (serialize_field codec b v w))
          (serialize_blocks codec fields bs) {b = w'} (serialize_blocks-cons b bs w w' e) in
      let first =
        field-IsWritten codec b w u t v h.0.0 h.0.1
          (map_err-eq-ok (in_field b.name) (serialize_field codec b v w) one) in
      let others = blocks-AreWritten bs u w' h.1 first.tidy rest in
      record {
        tidy = others.tidy;
        more = first.more + others.more;
        low = first.low * 2 ^ others.more + others.low;
        grows = Grows-trans first.grows others.grows;
        read = λ blocks message parsed m.
            parse_blocks-cons codec blocks message b bs w.bit_offset parsed
              (first.read blocks message parsed (Within-Grows others.grows m))
            ∙ others.read blocks message (put b.name (read_back b v) parsed) m
            ∙ ap (λ r. ok r) (read_back_all-cons fields b bs parsed);
      }

empty-IsTidy : IsTidy empty_writer
empty-IsTidy = record {
  sound = record { are_bytes = tt; fits = omega arith };
  short = omega arith;
  counted = refl;
}

serialize_lem :
    (codec : Codec) (blocks : List Block) (fields : Fields) (message : List ℕ)
    → serialize_fields_to_bytes codec blocks fields ≡ ok message
    → (serialize_blocks codec fields blocks empty_writer >>= λ w. ok (flush w).result) ≡ ok message
unfolding serialize_fields_to_bytes
serialize_lem codec blocks fields message e = e

-- For a model of plain blocks (bit fields of any width in the default bit and byte order, integers of
-- every type name and byte order, and byte fields of a fixed size, in any sequence and alignment), the
-- parser reads every message that the serializer makes, and returns for each block, in order, its
-- value masked to the width of a bit field, wrapped to an unsigned integer's width, or fitted to the
-- size of a byte field. Integers of a signed type come back as they are.
pub parse-serialize :
    (codec : Codec) (blocks : List Block) (fields : Fields) (message : List ℕ)
    → ArePlain fields blocks
    → serialize_fields_to_bytes codec blocks fields ≡ ok message
    → parse codec blocks message ≡ ok (read_back_all fields blocks [])
parse-serialize codec blocks fields message h e =
    let (w, made, ends) =
      >>=-eq-ok (serialize_blocks codec fields blocks empty_writer) (λ w. ok (flush w).result)
        {b = message} (serialize_lem codec blocks fields message e) in
    let all = blocks-AreWritten codec fields blocks empty_writer w h empty-IsTidy made in
    let f = flush-IsFlushed w all.tidy in
    let same : (flush w).result ≡ message = cc ends in
    subst (λ m. parse codec blocks m ≡ ok (read_back_all fields blocks [])) same
      (unfold parse in
        all.read blocks (flush w).result []
          (Within-Grows f.grows (Within-self (flush w) f.tidy f.empty)))
