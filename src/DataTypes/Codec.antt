-- ===== src/DataTypes/Codec.antt =====
-- src/ebus/models/data_types.cpp: the values, their bytes, `decode` and `encode`. The bytes that `encode`
-- gives are those of the sequence it returns, which is not extended. A float is its 32 bits.
use ebus.Base.{
  Bool, List, Option, [], bit_and, false, get_or, if◌then◌else◌, in_range, length, ltb, neg, negsuc,
  none, not, plus, pos, quot, read_sign, some, take, times, to_signed, to_unsigned, true, ℕ, ℤ, ◌%◌,
  ◌&&◌, ◌*◌, ◌+◌, ◌/◌, ◌==◌, ◌^◌, ◌||◌, ◌∷◌,
}
use ebus.DataTypes.Bytes.{read_int, write_int, hex_number, low_bytes}
use ebus.Sequence.{resize, size}
use ebus.DataTypes.{
  is_bcd, null_sentinel, fixed_point_scale, is_auto_detect, DataType, Endian, Meta, meta_for,
}

pub data DataValue : Type 0 where
  null : DataValue
  u8 u16 u32 : ℕ → DataValue
  i8 i16 i32 int64 : ℤ → DataValue
  float : ℕ → DataValue
  string : List ℕ → DataValue

-- What the machine's floating point numbers do: a conversion of an integer, one of a fixed-point
-- number, rounding to 64 bits, and the value times `den` over `num`.
pub record FloatOps : Type 0 where
  pub of_int : ℤ → ℕ
  pub of_fixed : ℤ → ℕ
  pub round : ℕ → ℤ
  pub unscale : ℕ → ℕ → ℕ → ℕ

unfoldable pub get_data_type : DataValue → DataType
get_data_type DataValue.null = DataType.error
get_data_type (DataValue.u8 _) = DataType.uint8
get_data_type (DataValue.u16 _) = DataType.uint16
get_data_type (DataValue.u32 _) = DataType.uint32
get_data_type (DataValue.i8 _) = DataType.int8
get_data_type (DataValue.i16 _) = DataType.int16
get_data_type (DataValue.i32 _) = DataType.int32
get_data_type (DataValue.int64 _) = DataType.error
get_data_type (DataValue.float _) = DataType.float4
get_data_type (DataValue.string _) = DataType.char8

abbrev pub is_null : DataValue → Bool
is_null DataValue.null = true
is_null _ = false

-- `integerScale`; the quotient is that of 128 bits, of which the result keeps 64.
unfoldable pub integer_scale : ℤ → ℕ → ℕ → ℤ
integer_scale val num den =
    if den == 0
    then pos 0
    else to_signed 64 (
        to_unsigned 64 (elim (times val num) [
          | pos n ↦ pos ((n + den / 2) / den)
          | negsuc n ↦ neg ((n + 1 + den / 2) / den)
        ]))

unfoldable pub validate_range : ℤ → ℕ → Bool → Bool
validate_range val size is_signed =
    if size == 1
    then in_range 8 is_signed val
    else if size == 2
    then in_range 16 is_signed val
    else if size == 4
    then in_range 32 is_signed val
    else true

abbrev pub must_flip : Meta → Endian → Bool
must_flip m Endian.little = m.reversed
must_flip m Endian.big = not m.reversed

abbrev pub bit_pattern : Meta → List ℕ → Bool → ℕ
bit_pattern m bytes flip =
    if m.size == 1
    then get_or bytes 0 0
    else if m.size == 2
    then read_int 2 bytes flip
    else if m.size == 4
    then read_int 4 bytes flip
    else 0

abbrev pub raw_value : Meta → List ℕ → Bool → ℤ
raw_value m bytes flip =
    if m.size == 1
    then read_sign m.is_signed 8 (get_or bytes 0 0)
    else if m.size == 2
    then read_sign m.is_signed 16 (read_int 2 bytes flip)
    else if m.size == 4
    then read_sign m.is_signed 32 (read_int 4 bytes flip)
    else pos 0

-- Where the raw value is not scaled; it has the type's range.
abbrev pub unscaled : Meta → ℤ → DataValue
unscaled m raw =
    if m.size == 1
    then (if m.is_signed then DataValue.i8 raw else DataValue.u8 (to_unsigned 8 raw))
    else if m.size == 2
    then (if m.is_signed then DataValue.i16 raw else DataValue.u16 (to_unsigned 16 raw))
    else if m.is_signed
    then DataValue.i32 raw
    else DataValue.u32 (to_unsigned 32 raw)

abbrev pub is_scaled : Meta → Bool
is_scaled m = not (m.scale_num == 1) || not (m.scale_den == 1)

abbrev pub bad_bcd : ℕ → Bool
bad_bcd val = ltb 9 (bit_and val 0x0f) || ltb 9 (bit_and (val / 2 ^ 4) 0x0f)

abbrev pub is_replacement : Meta → List ℕ → Bool → Bool
is_replacement m bytes flip =
    not m.is_float && (m.has_replacement && bit_pattern m bytes flip == m.replacement_value)

unfoldable pub decode_with : Meta → DataType → List ℕ → Endian → Option DataValue
decode_with m dt bytes e =
    let flip = must_flip m e in
    let val = get_or bytes 0 0 in
    let raw = raw_value m bytes flip in
    if ltb (length bytes) m.size
    then none
    else if not m.is_numeric
    then some (DataValue.string (take m.size bytes))
    else if is_replacement m bytes flip
    then some DataValue.null
    else if is_bcd dt
    then (if bad_bcd val then none else some (DataValue.u8 (val / 2 ^ 4 * 10 + bit_and val 0x0f)))
    else if m.is_float
    then some (DataValue.float (read_int 4 bytes flip))
    else if is_scaled m
    then some (DataValue.int64 (quot (times (times raw m.scale_num) fixed_point_scale) m.scale_den))
    else some (unscaled m raw)

unfoldable pub decode : DataType → List ℕ → Endian → Option DataValue
decode dt bytes e = elim (meta_for dt) [ none ↦ none | some m ↦ decode_with m dt bytes e ]

unfoldable pub is_valid : DataType → List ℕ → Bool
is_valid dt bytes = elim (meta_for dt) [
  | none ↦ false
  | some m ↦
      let val = get_or bytes 0 0 in
      if ltb (length bytes) m.size
      then false
      else if is_bcd dt
      then val == null_sentinel || not (bad_bcd val)
      else true
]

-- The low bytes of a raw value, of the type's size.
abbrev pub write_raw : ℕ → Bool → ℤ → List ℕ
write_raw size flip raw =
    if size == 1
    then to_unsigned 8 raw ∷ []
    else if size == 2
    then write_int 2 (to_unsigned 16 raw) flip
    else if size == 4
    then write_int 4 (to_unsigned 32 raw) flip
    else []

abbrev pub write_replacement : Meta → Bool → List ℕ
write_replacement m flip =
    if m.size == 1 || (m.size == 2 || m.size == 4)
    then write_raw m.size flip (pos m.replacement_value)
    else low_bytes m.size m.replacement_value

module _ (ops : FloatOps) where
  abbrev pub as_float : DataValue → ℕ
  as_float DataValue.null = 0
  as_float (DataValue.u8 n) = ops.of_int (pos n)
  as_float (DataValue.u16 n) = ops.of_int (pos n)
  as_float (DataValue.u32 n) = ops.of_int (pos n)
  as_float (DataValue.i8 z) = ops.of_int z
  as_float (DataValue.i16 z) = ops.of_int z
  as_float (DataValue.i32 z) = ops.of_int z
  as_float (DataValue.int64 z) = ops.of_fixed z
  as_float (DataValue.float f) = f
  as_float (DataValue.string _) = 0

  abbrev pub as_int64 : DataValue → ℤ
  as_int64 DataValue.null = pos 0
  as_int64 (DataValue.u8 n) = pos n
  as_int64 (DataValue.u16 n) = pos n
  as_int64 (DataValue.u32 n) = pos n
  as_int64 (DataValue.i8 z) = z
  as_int64 (DataValue.i16 z) = z
  as_int64 (DataValue.i32 z) = z
  as_int64 (DataValue.int64 z) = quot (plus z (fixed_point_scale / 2)) fixed_point_scale
  as_int64 (DataValue.float f) = ops.round f
  as_int64 (DataValue.string text) = hex_number text

  abbrev pub raw_int : Meta → DataValue → ℤ
  raw_int m (DataValue.float f) = ops.round (ops.unscale f m.scale_den m.scale_num)
  raw_int m (DataValue.int64 z) = ops.round (ops.unscale (ops.of_fixed z) m.scale_den m.scale_num)
  raw_int m value = integer_scale (as_int64 value) m.scale_den m.scale_num

  abbrev pub encode_bcd : ℤ → List ℕ
  encode_bcd (pos v) = if ltb 99 v then [] else (v / 10 * 2 ^ 4 + v % 10) ∷ []
  encode_bcd (negsuc _) = []

  abbrev pub encode_string : ℕ → DataValue → List ℕ
  encode_string size (DataValue.string str) = resize str size
  encode_string size _ = []

  unfoldable pub encode_with : Meta → DataType → DataValue → Endian → List ℕ
  encode_with m dt value e =
      let flip = must_flip m e in
      let raw = raw_int m value in
      if m.is_numeric && is_null value
      then (if m.has_replacement then write_replacement m flip else [])
      else if not m.is_numeric
      then encode_string m.size value
      else if is_bcd dt
      then encode_bcd (as_int64 value)
      else if m.is_float
      then write_int 4 (as_float value) flip
      else if validate_range raw m.size m.is_signed
      then write_raw m.size flip raw
      else []

  unfoldable pub encode : DataType → DataValue → Endian → List ℕ
  encode dt value e =
      let dt' = if is_auto_detect dt then get_data_type value else dt in
      elim (meta_for dt') [ none ↦ [] | some m ↦ encode_with m dt' value e ]
