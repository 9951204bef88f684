-- ===== src/Protocol/AutoFix/Fixed.antt =====
-- The size fields behind `_auto_fix_fields`.
use text.Mathlib.Text.{◌==◌ as same_text}
use fuzzing_framework.Prelude.{
  ℕ, ◌+◌, String, ◌≡◌, Bool, false, ◌||◌, ◌&&◌, List, [], ◌∷◌, if◌then◌else◌,
}
use fuzzing_framework.Result.{Result, ok}
use fuzzing_framework.Protocol.Model.{Block, Fields, Error}
use fuzzing_framework.Protocol.Parse.{Codec, normalize_size_of_targets}
use fuzzing_framework.Protocol.AutoFix.{target_length, fix_field}

-- A size field of that name is among the blocks.
unfoldable pub sizes : String → List Block → Bool
sizes k [] = false
sizes k (b ∷ bs) = (b.is_size_field && same_text b.name k) || sizes k bs

module _ (codec : Codec) (blocks : List Block) where
  -- a round of the loop
  abbrev round : Block → Fields → Result Error Fields
  round b fields =
      if b.is_size_field
      then fix_field codec blocks b (normalize_size_of_targets b.size_of) fields
      else ok fields

-- One length for each target, of its value in the fields or of its default.
abbrev pub AreLengths : Codec → List Block → Fields → List String → List ℕ → Type 0
AreLengths codec blocks fields [] [] = Unit
AreLengths codec blocks fields (t ∷ ts) (n ∷ ns) =
    (target_length codec blocks fields t ≡ ok n) × AreLengths codec blocks fields ts ns
AreLengths codec blocks fields _ _ = ⊥

abbrev pub sum : List ℕ → ℕ
sum [] = 0
sum (n ∷ ns) = n + sum ns
