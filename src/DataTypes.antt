-- ===== src/DataTypes.antt =====
-- include/ebus/data_types.hpp and src/ebus/models/data_types.cpp: the types of the values in a telegram,
-- and the table that says of each how its bytes are read. The codec is the child Codec.
pub mod Bytes
pub mod Signs
pub mod Raw
pub mod Table
pub mod Words
pub mod Codec
pub mod Nibbles
pub mod Restore
pub mod Integers
use ebus.Base.{
  Bool, List, Option, [], bit_and, bit_or, false, if◌then◌else◌, ltb, none, some, true, ℕ, ◌*◌, ◌-◌,
  ◌/◌, ◌==◌, ◌^◌, ◌∷◌,
}

pub data Endian : Type 0 where
  little big : Endian

pub data DataType : Type 0 where
  auto_detect error : DataType
  bcd uint8 int8 data1b data1c char1 hex1 : DataType
  uint16 uint16r int16 int16r data2b data2br data2c data2cr char2 hex2 : DataType
  char3 hex3 : DataType
  uint32 uint32r int32 int32r float4 float4r char4 hex4 : DataType
  char5 hex5 char6 hex6 char7 hex7 char8 hex8 : DataType

-- The enumerator's value; that of `error`, -1, as 32 bits without a sign.
abbrev pub code : DataType → ℕ
code DataType.auto_detect = 0
code DataType.error = 2 ^ 32 - 1
code DataType.bcd = 0x0101
code DataType.uint8 = 0x0102
code DataType.int8 = 0x0103
code DataType.data1b = 0x0104
code DataType.data1c = 0x0105
code DataType.char1 = 0x0106
code DataType.hex1 = 0x0107
code DataType.uint16 = 0x0201
code DataType.uint16r = 0x0202
code DataType.int16 = 0x0203
code DataType.int16r = 0x0204
code DataType.data2b = 0x0205
code DataType.data2br = 0x0206
code DataType.data2c = 0x0207
code DataType.data2cr = 0x0208
code DataType.char2 = 0x0209
code DataType.hex2 = 0x020a
code DataType.char3 = 0x0301
code DataType.hex3 = 0x0302
code DataType.uint32 = 0x0401
code DataType.uint32r = 0x0402
code DataType.int32 = 0x0403
code DataType.int32r = 0x0404
code DataType.float4 = 0x0405
code DataType.float4r = 0x0406
code DataType.char4 = 0x0407
code DataType.hex4 = 0x0408
code DataType.char5 = 0x0501
code DataType.hex5 = 0x0502
code DataType.char6 = 0x0601
code DataType.hex6 = 0x0602
code DataType.char7 = 0x0701
code DataType.hex7 = 0x0702
code DataType.char8 = 0x0801
code DataType.hex8 = 0x0802

abbrev pub null_sentinel : ℕ
null_sentinel = 0xff

abbrev pub fixed_point_scale : ℕ
fixed_point_scale = 1000000

-- `Meta`, with the fields of `DataTypeInfoBase` but the name; a scale is `scale_num` over `scale_den`.
pub record Meta : Type 0 where
  pub dt : DataType
  pub size : ℕ
  pub is_numeric : Bool
  pub is_signed : Bool
  pub is_float : Bool
  pub has_replacement : Bool
  pub replacement_value : ℕ
  pub reversed : Bool
  pub scale_num : ℕ
  pub scale_den : ℕ

-- A row of the table, in the table's order of its columns.
abbrev row : DataType → ℕ → Bool → Bool → Bool → Bool → ℕ → Bool → ℕ → ℕ → Meta
row dt size is_numeric is_signed is_float has_replacement replacement_value reversed scale_num
      scale_den =
    record {
      dt = dt;
      size = size;
      is_numeric = is_numeric;
      is_signed = is_signed;
      is_float = is_float;
      has_replacement = has_replacement;
      replacement_value = replacement_value;
      reversed = reversed;
      scale_num = scale_num;
      scale_den = scale_den;
    }

abbrev pub meta_table : List Meta
meta_table =
    row DataType.bcd 1 true false false true null_sentinel false 1 1
    ∷ row DataType.char1 1 false false false true 0xff false 1 1
    ∷ row DataType.char2 2 false false false true 0xffff false 1 1
    ∷ row DataType.char3 3 false false false false 0 false 1 1
    ∷ row DataType.char4 4 false false false false 0 false 1 1
    ∷ row DataType.char5 5 false false false false 0 false 1 1
    ∷ row DataType.char6 6 false false false false 0 false 1 1
    ∷ row DataType.char7 7 false false false false 0 false 1 1
    ∷ row DataType.char8 8 false false false false 0 false 1 1
    ∷ row DataType.data1b 1 true true false true 0x80 false 1 1
    ∷ row DataType.data1c 1 true false false true 0xff false 1 2
    ∷ row DataType.data2b 2 true true false true 0x8000 false 1 256
    ∷ row DataType.data2br 2 true true false true 0x8000 true 1 256
    ∷ row DataType.data2c 2 true true false true 0x8000 false 1 16
    ∷ row DataType.data2cr 2 true true false true 0x8000 true 1 16
    ∷ row DataType.float4 4 true false true false 0 false 1 1
    ∷ row DataType.float4r 4 true false true false 0 true 1 1
    ∷ row DataType.hex1 1 false false false true 0xff false 1 1
    ∷ row DataType.hex2 2 false false false true 0xffff false 1 1
    ∷ row DataType.hex3 3 false false false false 0 false 1 1
    ∷ row DataType.hex4 4 false false false false 0 false 1 1
    ∷ row DataType.hex5 5 false false false false 0 false 1 1
    ∷ row DataType.hex6 6 false false false false 0 false 1 1
    ∷ row DataType.hex7 7 false false false false 0 false 1 1
    ∷ row DataType.hex8 8 false false false false 0 false 1 1
    ∷ row DataType.int16 2 true true false true 0x8000 false 1 1
    ∷ row DataType.int16r 2 true true false true 0x8000 true 1 1
    ∷ row DataType.int32 4 true true false true 0x80000000 false 1 1
    ∷ row DataType.int32r 4 true true false true 0x80000000 true 1 1
    ∷ row DataType.int8 1 true true false true 0x80 false 1 1
    ∷ row DataType.uint16 2 true false false true 0xffff false 1 1
    ∷ row DataType.uint16r 2 true false false true 0xffff true 1 1
    ∷ row DataType.uint32 4 true false false true 0xffffffff false 1 1
    ∷ row DataType.uint32r 4 true false false true 0xffffffff true 1 1
    ∷ row DataType.uint8 1 true false false true 0xff false 1 1
    ∷ []

abbrev pub get_data_type_index : DataType → ℕ
get_data_type_index dt = bit_or (code dt / 2 ^ 8 * 2 ^ 4) (bit_and (code dt) 0xff)

-- A later row of the table takes the place of an earlier one with its index.
abbrev pub meta_lookup : List Meta → ℕ → Option Meta
meta_lookup [] idx = none
meta_lookup (m ∷ ms) idx = elim (meta_lookup ms idx) [
  | some n ↦ some n
  | none ↦ if get_data_type_index m.dt == idx then some m else none
]

abbrev pub lookup_size : ℕ
lookup_size = 144

abbrev pub in_table : DataType → Bool
in_table DataType.error = false
in_table DataType.auto_detect = false
in_table dt = ltb (get_data_type_index dt) lookup_size

unfoldable pub meta_for : DataType → Option Meta
meta_for dt = if in_table dt then meta_lookup meta_table (get_data_type_index dt) else none

abbrev pub is_bcd : DataType → Bool
is_bcd DataType.bcd = true
is_bcd _ = false

abbrev pub is_auto_detect : DataType → Bool
is_auto_detect DataType.auto_detect = true
is_auto_detect _ = false
