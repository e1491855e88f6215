-- ===== src/DataTypes/Integers.antt =====
-- `decode` of src/ebus/models/data_types.cpp on integers that `encode` has written.
use ebus.Base.{
  Bool, Bool-cases, [], arith, false, if◌then◌else◌, in_range, inl, inr, length, ltb, none, pos,
  refl, some, true, ℤ, ◌&&◌, ◌==◌, ◌^◌, ◌≡◌,
}
use ebus.DataTypes.{DataType, Endian, Meta, is_bcd, meta_for}
use ebus.DataTypes.Codec.{
  DataValue, FloatOps, as_int64, decode, decode_with, encode, encode_with, is_null, is_scaled,
  must_flip, raw_int, unscaled, validate_range, write_raw,
}
use ebus.DataTypes.Restore.{scale_num_one, scale_den_one, fits8, fits16, encode_row, decode_row}
use ebus.DataTypes.Raw.{low_bits, length-write_raw, raw_value-write_raw, bit_pattern-write_raw}
use ebus.DataTypes.Signs.{integer_scale_one}
use ebus.DataTypes.Table.{IsRow, meta_for-IsRow}

-- The values that hold an integer, in the range of its type.
abbrev pub is_integer : DataValue → Bool
is_integer (DataValue.u8 n) = ltb n (2 ^ 8)
is_integer (DataValue.u16 n) = ltb n (2 ^ 16)
is_integer (DataValue.u32 n) = ltb n (2 ^ 32)
is_integer (DataValue.i8 z) = in_range 8 true z
is_integer (DataValue.i16 z) = in_range 16 true z
is_integer (DataValue.i32 z) = in_range 32 true z
is_integer _ = false

-- What is read where an integer was written.
abbrev pub integer_read : Meta → ℤ → DataValue
integer_read m z =
    if m.has_replacement && low_bits m.size z == m.replacement_value
    then DataValue.null
    else unscaled m z

some_if : (b : Bool) (x y : DataValue) → (if b then some x else some y) ≡ some (if b then x else y)
some_if true x y = refl
some_if false x y = refl

integer_not_null : (v : DataValue) → is_integer v ≡ true → is_null v ≡ false
integer_not_null v i = ground arith

integer_unscaled :
    (ops : FloatOps) (m : Meta) (v : DataValue)
    → is_integer v ≡ true
    → m.scale_num ≡ 1
    → m.scale_den ≡ 1
    → raw_int ops m v ≡ as_int64 ops v
integer_unscaled ops m DataValue.null i num den = absurd (ground arith)
integer_unscaled ops m (DataValue.u8 n) i num den =
    simp (num, den) (integer_scale_one false (pos n) (ground arith))
integer_unscaled ops m (DataValue.u16 n) i num den =
    simp (num, den) (integer_scale_one false (pos n) (ground arith))
integer_unscaled ops m (DataValue.u32 n) i num den =
    simp (num, den) (integer_scale_one false (pos n) (ground arith))
integer_unscaled ops m (DataValue.i8 z) i num den =
    simp (num, den) (integer_scale_one true z (fits8 true z i).0)
integer_unscaled ops m (DataValue.i16 z) i num den =
    simp (num, den) (integer_scale_one true z (fits16 true z i).0)
integer_unscaled ops m (DataValue.i32 z) i num den = simp (num, den) (integer_scale_one true z i)
integer_unscaled ops m (DataValue.int64 z) i num den = absurd (ground arith)
integer_unscaled ops m (DataValue.float f) i num den = absurd (ground arith)
integer_unscaled ops m (DataValue.string s) i num den = absurd (ground arith)

module _ (ops : FloatOps) (m : Meta) (dt : DataType) (row : IsRow dt m) where
  integer_written :
      (v : DataValue) (e : Endian)
      → is_integer v ≡ true
      → m.is_numeric ≡ true
      → is_bcd dt ≡ false
      → m.is_float ≡ false
      → is_scaled m ≡ false
      → let z = as_int64 ops v in
        encode_with ops m dt v e
        ≡ (if validate_range z m.size m.is_signed then write_raw m.size (must_flip m e) z else [])
  unfolding encode_with
  integer_written v e i n b f s =
      let same = integer_unscaled ops m v i (scale_num_one m s) (scale_den_one m s) in
      simp (n, integer_not_null v i, b, f, same) refl

  written_read :
      (z : ℤ) (e : Endian)
      → m.is_numeric ≡ true
      → is_bcd dt ≡ false
      → m.is_float ≡ false
      → is_scaled m ≡ false
      → validate_range z m.size m.is_signed ≡ true
      → decode_with m dt (write_raw m.size (must_flip m e) z) e ≡ some (integer_read m z)
  unfolding decode_with
  written_read z e n b f s fits =
      let flip = must_flip m e in
      let size = row.number n in
      let long : ltb (length (write_raw m.size flip z)) m.size ≡ false =
        let exact = length-write_raw m.size flip z size in ground arith in
      let replaced = m.has_replacement && low_bits m.size z == m.replacement_value in
      rw (raw_value-write_raw m flip z size fits, bit_pattern-write_raw m flip z size)
        (simp (long, n, b, f, s) (some_if replaced DataValue.null (unscaled m z)))

  nothing_read : (e : Endian) → m.is_numeric ≡ true → decode_with m dt [] e ≡ none
  unfolding decode_with
  nothing_read e n =
      let size = row.number n in let short : ltb 0 m.size ≡ true = ground arith in simp short refl

  -- The bytes that are written, in range or not, and what is read of them.
  integer_kept :
      (v : DataValue) (e : Endian)
      → is_integer v ≡ true
      → m.is_numeric ≡ true
      → is_bcd dt ≡ false
      → m.is_float ≡ false
      → is_scaled m ≡ false
      → let z = as_int64 ops v in
        let bytes = encode_with ops m dt v e in
        let fits = validate_range z m.size m.is_signed in
        (length bytes ≡ (if fits then m.size else 0))
        × (decode_with m dt bytes e ≡ (if fits then some (integer_read m z) else none))
  integer_kept v e i n b f s =
      let z = as_int64 ops v in
      rw (integer_written v e i n b f s) (elim (Bool-cases (validate_range z m.size m.is_signed)) [
        | inl fits ↦ rw fits (
          length-write_raw m.size (must_flip m e) z (row.number n),
          written_read z e n b f s fits,
        )
        | inr wide ↦ rw wide (refl, nothing_read e n)
      ])

-- An integer in the range of a numeric type that is neither BCD nor floating point and has no scale
-- is written in as many bytes as the type has and read back at the same byte order, as null where
-- it is the type's replacement value; one out of range is written as no bytes, which are not read
-- as a value.
pub decode-encode_integer :
    (ops : FloatOps) (dt : DataType) (m : Meta) (v : DataValue) (e : Endian)
    → is_integer v ≡ true
    → meta_for dt ≡ some m
    → m.is_numeric ≡ true
    → is_bcd dt ≡ false
    → m.is_float ≡ false
    → is_scaled m ≡ false
    → let z = as_int64 ops v in
      let bytes = encode ops dt v e in
      let fits = validate_range z m.size m.is_signed in
      (length bytes ≡ (if fits then m.size else 0))
      × (decode dt bytes e ≡ (if fits then some (integer_read m z) else none))
decode-encode_integer ops dt m v e i row n b f s =
    let r = meta_for-IsRow dt m row in
    rw (encode_row ops dt m v e r.named row, decode_row dt m (encode_with ops m dt v e) e row)
      (integer_kept ops m dt r v e i n b f s)
