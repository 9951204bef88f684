-- ===== src/Protocol/AutoFix/Units.antt =====
-- What a size field holds, against the length that it measures.
use fuzzing_framework.Prelude.{ℕ, ◌+◌, ◌*◌, ◌%◌, ◌≤◌, ◌<◌, ◌≡◌, ◌↔◌, arith}
use fuzzing_framework.Protocol.Model.{SizeUnit, in_bits, in_bytes, in_words, in_dwords, other_unit}
use fuzzing_framework.Protocol.Parse.{size_to_bytes}
use fuzzing_framework.Protocol.AutoFix.{to_unit}

-- The bits of one unit.
abbrev pub unit_bits : SizeUnit → ℕ
unit_bits in_bits = 1
unit_bits in_bytes = 8
unit_bits in_words = 32
unit_bits in_dwords = 16
unit_bits other_unit = 8

-- A size field counts the least number of its units that hold all of the bits.
pub to_unit_least :
    (u : SizeUnit) (total : ℕ)
    → (total ≤ to_unit u total * unit_bits u)
      × (to_unit u total * unit_bits u < total + unit_bits u)
unfolding to_unit
to_unit_least in_bits total = omega arith
to_unit_least _ total = omega arith

-- The whole bytes that the parser takes for one unit.
abbrev pub unit_bytes : SizeUnit → ℕ
unit_bytes in_words = 4
unit_bytes in_dwords = 2
unit_bytes _ = 1

-- For a field of `n` whole bytes, the length that the parser reads back from the size field is the
-- least multiple of the unit's bytes that is at least `n`: never short, and exact for bits and bytes;
-- for words and dwords it is exact just when `n` is a multiple of 4 or of 2.
pub size_to_bytes-to_unit :
    (u : SizeUnit) (n : ℕ)
    → (n ≤ size_to_bytes u (to_unit u (n * 8)))
      × (size_to_bytes u (to_unit u (n * 8)) < n + unit_bytes u)
      × (size_to_bytes u (to_unit u (n * 8)) % unit_bytes u ≡ 0)
      × ((size_to_bytes u (to_unit u (n * 8)) ≡ n) ↔ (n % unit_bytes u ≡ 0))
unfolding to_unit size_to_bytes
size_to_bytes-to_unit in_bits n =
    (omega arith, omega arith, omega arith, (omega arith, omega arith))
size_to_bytes-to_unit _ n = (omega arith, omega arith, omega arith, (omega arith, omega arith))
