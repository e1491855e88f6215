-- ===== src/DataTypes/Restore.antt =====
-- `encode` of src/ebus/models/data_types.cpp on what `decode` has read.
use ebus.Base.{
  ==_iff, Bool, Bool-cases, List, Option, arith, bit_and, false, get_or, in_range, inl, inr, length,
  ltb, negsuc, not, none, pos, refl, some, subst, sym, take, to_unsigned, true, ℕ, ℤ, ◌&&◌, ◌*◌,
  ◌+◌, ◌/◌, ◌^◌, ◌∙◌, ◌≡◌, ◌≤◌,
}
use ebus.DataTypes.{DataType, Endian, Meta, is_auto_detect, is_bcd, meta_for}
use ebus.DataTypes.Bytes.{read_int}
use ebus.DataTypes.Codec.{
  DataValue, FloatOps, bad_bcd, bit_pattern, decode, decode_with, encode, encode_with, is_null,
  is_replacement, is_scaled, must_flip, raw_int, raw_value, unscaled, validate_range, write_raw,
  write_replacement,
}
use ebus.DataTypes.Nibbles.{digits_kept_byte, resize-take}
use ebus.DataTypes.Raw.{
  IsSize, first_fits, first_taken, raw_value_fits, write_raw-bit_pattern, write_raw-raw_value,
}
use ebus.DataTypes.Signs.{integer_scale_one}
use ebus.DataTypes.Table.{IsRow, meta_for-IsRow, plain_byte}
use ebus.DataTypes.Words.{write-read4}
use ebus.Sequence.Spec.{IsBytes}

replacement_read :
    (floating kept same : Bool)
    → (not floating && (kept && same)) ≡ true
    → (floating ≡ false) × (kept ≡ true) × (same ≡ true)
replacement_read floating kept same h = ground arith

write_replacement-write_raw :
    (m : Meta) (flip : Bool)
    → IsSize m.size
    → write_replacement m flip ≡ write_raw m.size flip (pos m.replacement_value)
write_replacement-write_raw m flip (inl e) = simp e refl
write_replacement-write_raw m flip (inr (inl e)) = simp e refl
write_replacement-write_raw m flip (inr (inr e)) = simp e refl

plain_byte-size : (m : Meta) → plain_byte m ≡ true → m.size ≡ 1
plain_byte-size m h = ground arith

pub scale_num_one : (m : Meta) → is_scaled m ≡ false → m.scale_num ≡ 1
scale_num_one m s = ground arith

pub scale_den_one : (m : Meta) → is_scaled m ≡ false → m.scale_den ≡ 1
scale_den_one m s = ground arith

unscaled_not_null : (m : Meta) (z : ℤ) → is_null (unscaled m z) ≡ false
unscaled_not_null m z = ground arith

-- A number in a smaller range, in the one of 32 bits, and without a sign.
abbrev pub Fits : ℕ → Bool → ℤ → Type 0
Fits w signed z = (in_range 32 signed z ≡ true) × (signed ≡ false → pos (to_unsigned w z) ≡ z)

pub fits8 : (signed : Bool) (z : ℤ) → in_range 8 signed z ≡ true → Fits 8 signed z
fits8 signed (pos n) h = (ground arith, λ s. ground arith)
fits8 signed (negsuc n) h = (ground arith, λ s. ground arith)

pub fits16 : (signed : Bool) (z : ℤ) → in_range 16 signed z ≡ true → Fits 16 signed z
fits16 signed (pos n) h = (ground arith, λ s. ground arith)
fits16 signed (negsuc n) h = (ground arith, λ s. ground arith)

pub fits32 : (signed : Bool) (z : ℤ) → in_range 32 signed z ≡ true → Fits 32 signed z
fits32 signed (pos n) h = (ground arith, λ s. ground arith)
fits32 signed (negsuc n) h = (ground arith, λ s. ground arith)

-- A raw value in its type's range, as a value and back.
unscaled_raw :
    (ops : FloatOps) (m : Meta) (z : ℤ)
    → IsSize m.size
    → validate_range z m.size m.is_signed ≡ true
    → m.scale_num ≡ 1
    → m.scale_den ≡ 1
    → raw_int ops m (unscaled m z) ≡ z
unfolding validate_range
unscaled_raw ops m z (inl e) h num den =
    let (wide, plain) = fits8 m.is_signed z (simp e at h) in
    let one = integer_scale_one m.is_signed z wide in
    elim (Bool-cases m.is_signed) [
      | inl signed ↦ simp (e, signed, num, den) one
      | inr signed ↦ simp (e, signed, num, den, plain signed) one
    ]
unscaled_raw ops m z (inr (inl e)) h num den =
    let (wide, plain) = fits16 m.is_signed z (simp e at h) in
    let one = integer_scale_one m.is_signed z wide in
    elim (Bool-cases m.is_signed) [
      | inl signed ↦ simp (e, signed, num, den) one
      | inr signed ↦ simp (e, signed, num, den, plain signed) one
    ]
unscaled_raw ops m z (inr (inr e)) h num den =
    let (wide, plain) = fits32 m.is_signed z (simp e at h) in
    let one = integer_scale_one m.is_signed z wide in
    elim (Bool-cases m.is_signed) [
      | inl signed ↦ simp (e, signed, num, den) one
      | inr signed ↦ simp (e, signed, num, den, plain signed) one
    ]

-- Where the bytes are not scaled, the value is the raw value.
module _ (ops : FloatOps) (m : Meta) (dt : DataType) (row : IsRow dt m) (bytes : List ℕ)
    (fit : IsBytes bytes) where
  -- What `encode` writes of a value that `decode` has read.
  abbrev Restores : Endian → Option DataValue → Type 0
  Restores e none = Unit {0}
  Restores e (some v) = encode_with ops m dt v e ≡ take m.size bytes

  text_restored :
      (e : Endian)
      → m.size ≤ length bytes
      → m.is_numeric ≡ false
      → Restores e (some (DataValue.string (take m.size bytes)))
  unfolding encode_with
  text_restored e l n = simp n (resize-take m.size bytes l)

  null_restored :
      (e : Endian)
      → m.size ≤ length bytes
      → m.is_numeric ≡ true
      → is_replacement m bytes (must_flip m e) ≡ true
      → Restores e (some DataValue.null)
  unfolding encode_with
  null_restored e l n r =
      let flip = must_flip m e in
      let (_, kept, equal) = replacement_read m.is_float m.has_replacement _ r in
      let same : bit_pattern m bytes flip ≡ m.replacement_value =
        (==_iff (bit_pattern m bytes flip) m.replacement_value).0 equal in
      simp (n, kept, write_replacement-write_raw m flip (row.number n), ← same)
        (write_raw-bit_pattern m flip bytes (row.number n) fit l)

  bcd_restored :
      (e : Endian)
      → m.size ≤ length bytes
      → m.is_numeric ≡ true
      → is_bcd dt ≡ true
      → let val = get_or bytes 0 0 in
        bad_bcd val ≡ false → Restores e (some (DataValue.u8 (val / 2 ^ 4 * 10 + bit_and val 0x0f)))
  unfolding encode_with
  bcd_restored e l n b g =
      let (small, value) = digits_kept_byte (get_or bytes 0 0) (first_fits bytes fit) g in
      let one = plain_byte-size m (row.byte b) in
      simp (n, b, one, small, value) (first_taken bytes (omega (arith, one)))

  float_restored :
      (e : Endian)
      → m.size ≤ length bytes
      → m.is_numeric ≡ true
      → is_bcd dt ≡ false
      → m.is_float ≡ true
      → Restores e (some (DataValue.float (read_int 4 bytes (must_flip m e))))
  unfolding encode_with
  float_restored e l n b f =
      let four = row.float4 f in
      simp (n, b, f, four) (write-read4 bytes (must_flip m e) fit (omega (arith, four)))

  raw_restored :
      (e : Endian)
      → m.size ≤ length bytes
      → m.is_numeric ≡ true
      → is_bcd dt ≡ false
      → m.is_float ≡ false
      → is_scaled m ≡ false
      → Restores e (some (unscaled m (raw_value m bytes (must_flip m e))))
  unfolding encode_with
  raw_restored e l n b f s =
      let flip = must_flip m e in
      let raw = raw_value m bytes flip in
      let size = row.number n in
      let fits = raw_value_fits m flip bytes size fit in
      let num = scale_num_one m s in
      let den = scale_den_one m s in
      let same : raw_int ops m (unscaled m raw) ≡ raw = unscaled_raw ops m raw size fits num den in
      simp (n, b, f, unscaled_not_null m raw, same, fits)
        (write_raw-raw_value m flip bytes size fit l)

  number_restored :
      (e : Endian)
      → m.size ≤ length bytes
      → ltb (length bytes) m.size ≡ false
      → m.is_numeric ≡ true
      → is_replacement m bytes (must_flip m e) ≡ false
      → is_scaled m ≡ false
      → Restores e (decode_with m dt bytes e)
  unfolding decode_with
  number_restored e l long n r s = elim (Bool-cases (is_bcd dt)) [
    | inl b ↦ elim (Bool-cases (bad_bcd (get_or bytes 0 0))) [
      | inl bad ↦ simp (long, n, r) (simp (b, bad) tt)
      | inr good ↦ simp (long, n, r) (simp (b, good) (bcd_restored e l n b good))
    ]
    | inr b ↦ elim (Bool-cases m.is_float) [
      | inl f ↦ simp (long, n, r) (simp (b, f) (float_restored e l n b f))
      | inr f ↦ simp (long, n, r) (simp (b, f, s) (raw_restored e l n b f s))
    ]
  ]

  decode_with-Restores : (e : Endian) → is_scaled m ≡ false → Restores e (decode_with m dt bytes e)
  unfolding decode_with
  decode_with-Restores e s =
      let flip = must_flip m e in
      elim (Bool-cases (ltb (length bytes) m.size)) [
        | inl short ↦ simp short tt
        | inr long ↦
            let l : m.size ≤ length bytes = ground arith in
            elim (Bool-cases m.is_numeric) [
              | inr text ↦ simp (long, text) (text_restored e l text)
              | inl n ↦ elim (Bool-cases (is_replacement m bytes flip)) [
                | inl r ↦ simp (long, n, r) (null_restored e l n r)
                | inr r ↦ number_restored e l long n r s
              ]
            ]
      ]

-- A type of the table is found there.
pub encode_row :
    (ops : FloatOps) (dt : DataType) (m : Meta) (v : DataValue) (e : Endian)
    → is_auto_detect dt ≡ false
    → meta_for dt ≡ some m
    → encode ops dt v e ≡ encode_with ops m dt v e
unfolding encode
encode_row ops dt m v e named row = rw (named, row, encode) (rw named refl)

pub decode_row :
    (dt : DataType) (m : Meta) (bytes : List ℕ) (e : Endian)
    → meta_for dt ≡ some m
    → decode dt bytes e ≡ decode_with m dt bytes e
unfolding decode
decode_row dt m bytes e row = rw (row, decode) refl

-- Bytes that are read as a value of a type without a scale, and written again, are the bytes: text,
-- replacement values, decimal digits, floating point numbers and integers, in either byte order.
pub encode-decode_value :
    (ops : FloatOps) (dt : DataType) (m : Meta) (bytes : List ℕ) (e : Endian) (v : DataValue)
    → IsBytes bytes
    → meta_for dt ≡ some m
    → is_scaled m ≡ false
    → decode dt bytes e ≡ some v
    → encode ops dt v e ≡ take m.size bytes
encode-decode_value ops dt m bytes e v fit row s d =
    let r = meta_for-IsRow dt m row in
    let read : decode_with m dt bytes e ≡ some v = sym (decode_row dt m bytes e row) ∙ d in
    rw (encode_row ops dt m v e r.named row)
      (subst (Restores ops m dt r bytes fit e) read (decode_with-Restores ops m dt r bytes fit e s))
