-- ===== src/Tests/Sizes.antt =====
-- Size fields: the witness of the theorem on what they hold, and a run.
use fuzzing_framework.Prelude.{List, [], ◌∷◌, true}
use fuzzing_framework.Prelude.Int.{pos}
use fuzzing_framework.Protocol.Model.{
  Block, block, Fields, int, bytes, uint_type, bytes_type, w16, target, in_words,
}

-- The words of a body of five bytes.
abbrev words : Block
words = record (block "words" (uint_type w16)) {
  is_size_field = true;
  size_of = target "body";
  size_unit = in_words;
}

abbrev body : Block
body = block "body" bytes_type

abbrev given : Fields
given = ("body", bytes (1 ∷ 2 ∷ 3 ∷ 4 ∷ 5 ∷ [])) ∷ []

abbrev fixed : Fields
fixed = ("body", bytes (1 ∷ 2 ∷ 3 ∷ 4 ∷ 5 ∷ [])) ∷ ("words", int (pos 2)) ∷ []
