-- ===== src/Protocol/Model.antt =====
-- The data model that core/engine/protocol_parser.py works on. A block is a `dict` of the plugin;
-- here it is a record with an `Option` for each key that the parser tests with `in` or `get`.
use fuzzing_framework.Prelude.{ℕ, String, Bool, false, Option, none, List, []}
use fuzzing_framework.Prelude.Int.{ℤ, pos}
use fuzzing_framework.Dict.{Dict}

-- A value of a field. Texts are lists of code points.
pub data Value : Type 0 where
  null : Value
  int : ℤ → Value
  bytes : List ℕ → Value
  str : List ℕ → Value

-- The number in a type's name. `other_width` is any name that `type_map` lacks, such as `uint24`.
pub data Width : Type 0 where
  w8 w16 w32 w64 other_width : Width

-- The dispatch on `block['type']`: `'bits'`, `'bytes'`, `'string'`, a name that starts with `uint`
-- or with `int`, and any other name.
pub data FieldType : Type 0 where
  bits_type bytes_type string_type other_type : FieldType
  uint_type int_type : Width → FieldType

pub data BitOrder : Type 0 where
  msb lsb : BitOrder

pub data Endian : Type 0 where
  big little other_endian : Endian

pub data SizeUnit : Type 0 where
  in_bits in_bytes in_words in_dwords other_unit : SizeUnit

-- `size_of`: absent or of another type, one name, or a list in which `none` is no text.
pub data SizeOf : Type 0 where
  no_target : SizeOf
  target : String → SizeOf
  targets : List (Option String) → SizeOf

pub data Algorithm : Type 0 where
  crc32 adler32 sum xor sum8 sum16 other_algorithm : Algorithm

pub data ChecksumOver : Type 0 where
  not_given over_all before after over_list other_part : ChecksumOver

-- An operation of a transform, as its name selects it.
pub data Operation : Type 0 where
  add_constant subtract_constant xor_constant and_mask or_mask : Operation
  shift_left shift_right modulo invert other_operation : Operation

-- An operation's `value`: absent, an integer, a float (as its 64 bits), a text that is read as an
-- integer, or a value of another type, such as a list.
pub data Operand : Type 0 where
  no_operand : Operand
  number : ℤ → Operand
  decimal : ℕ → Operand
  numeral : List ℕ → Operand
  other_operand : Operand

-- The `bit_width` is an integer or absent; a value of another type there is not modelled.
pub record Transform : Type 0 where
  pub operation : Option Operation
  pub value : Operand
  pub bit_width : Option ℤ

pub data Generator : Type 0 where
  unix_timestamp sequence other_generator : Generator
  random_bytes : Option ℕ → Generator

-- A key of a block's `values`: an integer, or a text where JSON has turned the key into one.
pub data CommandKey : Type 0 where
  code : ℤ → CommandKey
  text_key : List ℕ → CommandKey

pub record Block : Type 0 where
  pub name : String
  pub type : FieldType
  pub size : Option ℕ
  pub max_size : Option ℕ
  pub bit_order : BitOrder
  pub endian : Endian
  pub default : Option Value
  pub encoding : String
  pub is_size_field : Bool
  pub size_of : SizeOf
  pub size_unit : SizeUnit
  pub is_checksum : Bool
  pub checksum_algorithm : Option Algorithm
  pub checksum_over : ChecksumOver
  pub from_context : Option String
  pub generate : Option Generator
  pub transform : Option (List (Option Transform))
  pub values : Option (List (CommandKey × String))

abbrev pub Fields : Type 0
Fields = Dict Value

-- What the parser raises, below the text of the message. `outside_model` stands where the source
-- goes on with a negative length that a signed size field holds, or with a float as a field's value.
pub data Error : Type 0 where
  not_enough_data unsupported_type missing_key type_error struct_error codec_error : Error
  negative_shift no_context no_context_key outside_model : Error
  in_field : String → Error → Error

-- A block that gives a name and a type, every other key at the default that the parser takes.
abbrev pub block : String → FieldType → Block
block name type = record {
  name = name;
  type = type;
  size = none;
  max_size = none;
  bit_order = msb;
  endian = big;
  default = none;
  encoding = "utf-8";
  is_size_field = false;
  size_of = no_target;
  size_unit = in_bytes;
  is_checksum = false;
  checksum_algorithm = none;
  checksum_over = not_given;
  from_context = none;
  generate = none;
  transform = none;
  values = none;
}

-- `_get_default_value`
unfoldable pub get_default_value : FieldType → Value
get_default_value bits_type = int (pos 0)
get_default_value (uint_type w) = int (pos 0)
get_default_value (int_type w) = int (pos 0)
get_default_value bytes_type = bytes []
get_default_value string_type = str []
get_default_value other_type = null
