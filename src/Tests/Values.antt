-- ===== src/Tests/Values.antt =====
-- include/ebus/data_types.hpp and src/ebus/models/data_types.cpp on concrete values.
use ebus.Base.{
  [], arith, false, if◌then◌else◌, length, none, pos, negsuc, neg, refl, some, true, ◌∷◌, ◌≡◌,
}
use ebus.DataTypes.{DataType, Endian, Meta, meta_for}
use ebus.DataTypes.Bytes.{read_int}
use ebus.DataTypes.Codec.{
  DataValue, FloatOps, as_int64, decode, decode_with, encode, validate_range,
}
use ebus.DataTypes.Integers.{decode-encode_integer, integer_read}
use ebus.DataTypes.Restore.{encode-decode_value}

-- Floating point numbers that stand for themselves.
abbrev floats : FloatOps
floats = record { of_int = λ z. 0; of_fixed = λ z. 0; round = λ f. pos f; unscale = λ f num den. f }

abbrev int16_row : Meta
int16_row = record {
  dt = DataType.int16;
  size = 2;
  is_numeric = true;
  is_signed = true;
  is_float = false;
  has_replacement = true;
  replacement_value = 0x8000;
  reversed = false;
  scale_num = 1;
  scale_den = 1;
}

int16_known : meta_for DataType.int16 ≡ some int16_row
unfolding meta_for
int16_known = refl

bytes_read :
    decode DataType.int16 (0xfe ∷ 0xff ∷ []) Endian.little ≡ some (DataValue.i16 (negsuc 1))
unfolding decode decode_with meta_for read_int
bytes_read = refl

encode-decode_value_example :
    encode floats DataType.int16 (DataValue.i16 (negsuc 1)) Endian.little ≡ 0xfe ∷ 0xff ∷ []
encode-decode_value_example =
    encode-decode_value floats DataType.int16 int16_row (0xfe ∷ 0xff ∷ []) Endian.little
      (DataValue.i16 (negsuc 1)) (omega arith) int16_known refl bytes_read

decode-encode_integer_example :
    let bytes = encode floats DataType.int16 (DataValue.u32 40000) Endian.big in
    let fits = validate_range (pos 40000) 2 true in
    (length bytes ≡ (if fits then 2 else 0))
    × (decode DataType.int16 bytes Endian.big
        ≡ (if fits then some (integer_read int16_row (pos 40000)) else none))
decode-encode_integer_example =
    decode-encode_integer floats DataType.int16 int16_row (DataValue.u32 40000) Endian.big refl
      int16_known refl refl refl refl

-- -1.9 as a fixed-point number is rounded to -1.
rounded_up : as_int64 floats (DataValue.int64 (neg 1900000)) ≡ neg 1
rounded_up = refl
