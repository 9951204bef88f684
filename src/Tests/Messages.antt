-- ===== src/Tests/Messages.antt =====
-- Messages: the witnesses of the parser's and the serializer's theorems, and runs.
use fuzzing_framework.Prelude.{
  ℕ, ◌≡◌, refl, ◌≤◌, ◌<◌, ◌*◌, ◌+◌, ◌%◌, ◌↔◌, Option, none, some, List, [], ◌∷◌, arith,
}
use fuzzing_framework.Prelude.Int.{pos, negsuc, low_bits}
use fuzzing_framework.Result.{◌>>=◌, ok}
use fuzzing_framework.Dict.{get}
use fuzzing_framework.Protocol.Model.{
  int, w16, w8, big, msb, invert, in_words, in_dwords, Transform, add_constant, shift_left, number,
  numeral, no_operand,
}
use fuzzing_framework.Protocol.BitString.{AreBytes, bits_at}
use fuzzing_framework.Protocol.Parse.{parse, extract_bits, size_to_bytes}
use fuzzing_framework.Protocol.Serialize.{field_value, serialize_fields_to_bytes, Writer, emit_all}
use fuzzing_framework.Protocol.Serialize.Writing.{Moves, emit_all-Moves}
use fuzzing_framework.Protocol.AutoFix.{to_unit}
use fuzzing_framework.Protocol.AutoFix.Units.{
  unit_bits, unit_bytes, to_unit_least, size_to_bytes-to_unit,
}
use fuzzing_framework.Protocol.RoundTrip.Extract.{extract_bits-msb}
use fuzzing_framework.Protocol.RoundTrip.Fields.{bits_field, uint_field, int_field, bytes_field}
use fuzzing_framework.Protocol.RoundTrip.Message.{ArePlain, read_back_all, parse-serialize}
use fuzzing_framework.Transform.{operate, invert_within}
use fuzzing_framework.Transform.Loops.{ordinary, float, apply_transforms, pipeline}
use fuzzing_framework.Transform.Agree.{apply_transforms-eq-pipeline, adding}
use fuzzing_framework.Transform.Invert.{invert-invert}
use fuzzing_framework.Tests.Samples.{
  sample_runtime, one_and_a_half, second_sum, ascii, header, header_fields,
}

abbrev pub header_bytes : List ℕ
header_bytes = 178 ∷ 0 ∷ 0x34 ∷ 0x12 ∷ 254 ∷ 7 ∷ 0 ∷ 0 ∷ []

header_bytes-AreBytes : AreBytes header_bytes
header_bytes-AreBytes = (
  omega arith,
  (
    omega arith,
    (omega arith, (omega arith, (omega arith, (omega arith, (omega arith, (omega arith, tt)))))),
  ),
)

serialize-header : serialize_fields_to_bytes ascii header header_fields ≡ ok header_bytes
unfolding serialize_fields_to_bytes get
serialize-header = refl

header-ArePlain : ArePlain header_fields header
unfolding field_value get
header-ArePlain = (
  (bits_field 3 refl refl refl refl, tt),
  (
    (bits_field 7 refl refl refl refl, tt),
    (
      (uint_field w16 refl, tt),
      ((int_field w8 refl, tt), ((bytes_field 3 refl refl, (omega arith, tt)), tt)),
    ),
  ),
)

parse-serialize_example :
    parse ascii header header_bytes ≡ ok (read_back_all header_fields header [])
parse-serialize_example =
    parse-serialize ascii header header_fields header_bytes header-ArePlain serialize-header

extract_bits-msb_example :
    extract_bits header_bytes 3 7 msb big ≡ ok (pos (bits_at header_bytes 3 7), 7)
extract_bits-msb_example =
    extract_bits-msb header_bytes 3 7 header_bytes-AreBytes (omega arith) big refl

-- Ten bits, of which eight go out.
abbrev ten_bits : Writer
ten_bits = record { result = 7 ∷ []; bit_offset = 8; bit_buffer = 713; bits_in_buffer = 10 }

emit_all-Moves_example :
    Moves ten_bits (emit_all 10 msb ten_bits) × ((emit_all 10 msb ten_bits).bits_in_buffer < 8)
emit_all-Moves_example =
    emit_all-Moves 10 ten_bits (record { are_bytes = (omega arith, tt); fits = omega arith })
      (omega arith)

to_unit_least_example :
    (65 ≤ to_unit in_words 65 * unit_bits in_words)
    × (to_unit in_words 65 * unit_bits in_words < 65 + unit_bits in_words)
to_unit_least_example = to_unit_least in_words 65

size_to_bytes-to_unit_example :
    (3 ≤ size_to_bytes in_dwords (to_unit in_dwords (3 * 8)))
    × (size_to_bytes in_dwords (to_unit in_dwords (3 * 8)) < 3 + unit_bytes in_dwords)
    × (size_to_bytes in_dwords (to_unit in_dwords (3 * 8)) % unit_bytes in_dwords ≡ 0)
    × ((size_to_bytes in_dwords (to_unit in_dwords (3 * 8)) ≡ 3) ↔ (3 % unit_bytes in_dwords ≡ 0))
size_to_bytes-to_unit_example = size_to_bytes-to_unit in_dwords 3

-- 17 bytes counted in dwords are read back as 18.
read_back_dwords : size_to_bytes in_dwords (to_unit in_dwords (17 * 8)) ≡ 18
unfolding size_to_bytes to_unit
read_back_dwords = refl

invert-invert_example :
    operate invert (invert_within (negsuc 4) none (some (pos 8))) (some (pos 15)) (some (pos 8))
    ≡ ok (pos (low_bits 8 (negsuc 4)))
invert-invert_example = invert-invert (negsuc 4) 7 none (some (pos 15))

-- An addition, an entry that is no transform, a shift by a text that is no number, and an inversion.
abbrev transforms : List (Option Transform)
transforms =
    some (record { operation = some add_constant; value = number (pos 3); bit_width = none })
    ∷ none
    ∷ some (record { operation = some shift_left; value = numeral (120 ∷ []); bit_width = none })
    ∷ some (record { operation = some invert; value = no_operand; bit_width = none })
    ∷ []

apply_transforms-eq-pipeline_example :
    apply_transforms sample_runtime (int (pos 250)) transforms
    ≡ pipeline sample_runtime (ordinary (int (pos 250))) transforms
apply_transforms-eq-pipeline_example =
    apply_transforms-eq-pipeline sample_runtime (int (pos 250)) transforms (refl, (refl, tt))

-- Its value.
transforms_run :
    apply_transforms sample_runtime (int (pos 250)) transforms ≡ ok (ordinary (int (pos 2)))
unfolding apply_transforms
transforms_run = refl

-- 1 is added to the sum.
abbrev add_one : Option Transform
add_one = some (record { operation = some add_constant; value = number (pos 1); bit_width = none })

-- The parser ends with 252.5.
parser_goes_on :
    apply_transforms sample_runtime (int (pos 250)) (some (adding one_and_a_half) ∷ add_one ∷ [])
    ≡ ok (float second_sum)
unfolding apply_transforms
parser_goes_on = refl
