-- ===== src/Protocol/RoundTrip/Extract.antt =====
-- `_parse_bits_field` reads a range of the message's bits.
use native.Mathlib.Nat.{div-div-eq-div-mul}
use fuzzing_framework.Prelude.{
  ℕ, ◌+◌, ◌-◌, ◌*◌, ◌/◌, ◌%◌, ◌^◌, ◌≤◌, ◌≡◌, sym, ap, ◌∙◌, false, List, arith, length, take, drop,
}
use fuzzing_framework.Prelude.Int.{pos}
use fuzzing_framework.Prelude.Powers.{two-pow-add, part_of_field}
use fuzzing_framework.Result.{ok}
use fuzzing_framework.Protocol.Model.{Endian, msb}
use fuzzing_framework.Protocol.BitString.{AreBytes, bit_length, to_number, bits_at, to_number-slice}
use fuzzing_framework.Protocol.Parse.{extract_bits, is_little}

module _ (bs : List ℕ) (offset n : ℕ) (h : AreBytes bs) (fits : offset + n ≤ bit_length bs) where
  abbrev bytes_needed : ℕ
  bytes_needed = (offset % 8 + n + 7) / 8

  in_bytes : offset / 8 + bytes_needed ≤ length bs
  in_bytes = omega arith

  extracted :
      to_number (take bytes_needed (drop (offset / 8) bs))
        / 2 ^ (bytes_needed * 8 - offset % 8 - n)
        % 2 ^ n
      ≡ bits_at bs offset n
  extracted =
      let shift = bytes_needed * 8 - offset % 8 - n in
      let behind = bit_length bs - offset / 8 * 8 - bytes_needed * 8 in
      let width : bytes_needed * 8 ≡ shift + (offset % 8 + n) = omega arith in
      let total : behind + shift ≡ bit_length bs - offset - n = omega (arith, in_bytes) in
      ap (λ (m : ℕ). m / 2 ^ shift % 2 ^ n)
        (to_number-slice bs (offset / 8) bytes_needed h in_bytes)
      ∙ ap (λ (m : ℕ). to_number bs / 2 ^ behind % 2 ^ m / 2 ^ shift % 2 ^ n) width
      ∙ part_of_field (to_number bs / 2 ^ behind) shift (offset % 8) n
      ∙ ap (λ (m : ℕ). m % 2 ^ n)
          (div-div-eq-div-mul (to_number bs) (2 ^ behind) (2 ^ shift)
            ∙ ap (λ (m : ℕ). to_number bs / m) (sym (two-pow-add behind shift))
            ∙ ap (λ (m : ℕ). to_number bs / 2 ^ m) total)

  -- A field most significant bit first, in big-endian bytes, at any bit offset within the message: the
  -- parser returns the message's bits from that offset on.
  pub extract_bits-msb :
      (e : Endian)
      → is_little e ≡ false
      → extract_bits bs offset n msb e ≡ ok (pos (bits_at bs offset n), n)
  unfolding extract_bits
  extract_bits-msb e big_endian = ground (arith, extracted, in_bytes)
