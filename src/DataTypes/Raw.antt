-- ===== src/DataTypes/Raw.antt =====
-- The raw integer of a numeric type of src/ebus/models/data_types.cpp, written and read.
use ebus.Base.{
  Bool, List, [], arith, get_or, if◌then◌else◌, inl, inr, length, pos, refl, take, to_unsigned,
  true, ℕ, ℤ, ◌%◌, ◌^◌, ◌<◌, ◌==◌, ◌∷◌, ◌≡◌, ◌≤◌, ◌⊎◌,
}
use ebus.DataTypes.{Meta}
use ebus.Sequence.Spec.{IsBytes}
use ebus.DataTypes.Codec.{bit_pattern, raw_value, validate_range, write_raw}
use ebus.DataTypes.Words.{
  read-write2, read-write4, read_fits2, read_fits4, write-read2, write-read4,
}
use ebus.DataTypes.Signs.{
  read_sign-to_unsigned8, read_sign-to_unsigned16, to_unsigned-read_sign16, read_sign-to_unsigned32,
  to_unsigned-read_sign32, to_unsigned_fits16, read_sign_fits8, read_sign_fits16, read_sign_fits32,
  to_unsigned_fits32, to_unsigned-read_sign8,
}
use ebus.DataTypes.Bytes.{low_bytes, read_int, write_int}

-- The sizes of the numbers.
abbrev pub IsSize : ℕ → Type 0
IsSize size = (size ≡ 1) ⊎ ((size ≡ 2) ⊎ (size ≡ 4))

abbrev pub low_bits : ℕ → ℤ → ℕ
low_bits size z =
    if size == 1 then to_unsigned 8 z else if size == 2 then to_unsigned 16 z else to_unsigned 32 z

pub raw_value-write_raw :
    (m : Meta) (flip : Bool) (z : ℤ)
    → IsSize m.size
    → validate_range z m.size m.is_signed ≡ true
    → raw_value m (write_raw m.size flip z) flip ≡ z
unfolding validate_range
raw_value-write_raw m flip z (inl e) h = simp e (read_sign-to_unsigned8 m.is_signed z (simp e at h))
raw_value-write_raw m flip z (inr (inl e)) h =
    simp (e, read-write2 (to_unsigned 16 z) flip (to_unsigned_fits16 z))
      (read_sign-to_unsigned16 m.is_signed z (simp e at h))
raw_value-write_raw m flip z (inr (inr e)) h =
    simp (e, read-write4 (to_unsigned 32 z) flip (to_unsigned_fits32 z))
      (read_sign-to_unsigned32 m.is_signed z (simp e at h))

pub bit_pattern-write_raw :
    (m : Meta) (flip : Bool) (z : ℤ)
    → IsSize m.size
    → bit_pattern m (write_raw m.size flip z) flip ≡ low_bits m.size z
bit_pattern-write_raw m flip z (inl e) = simp e refl
bit_pattern-write_raw m flip z (inr (inl e)) =
    simp e (read-write2 (to_unsigned 16 z) flip (to_unsigned_fits16 z))
bit_pattern-write_raw m flip z (inr (inr e)) =
    simp e (read-write4 (to_unsigned 32 z) flip (to_unsigned_fits32 z))

pub length-write_raw :
    (size : ℕ) (flip : Bool) (z : ℤ) → IsSize size → length (write_raw size flip z) ≡ size
unfolding write_int low_bytes
length-write_raw size flip z (inl e) = rw e refl
length-write_raw size flip z (inr (inl e)) = rw e refl
length-write_raw size flip z (inr (inr e)) = rw e refl

pub first_fits : (bytes : List ℕ) → IsBytes bytes → get_or bytes 0 0 < 256
first_fits [] h = omega arith
first_fits (b ∷ bytes) (l, _) = l

pub first_taken : (bytes : List ℕ) → 1 ≤ length bytes → get_or bytes 0 0 ∷ [] ≡ take 1 bytes
first_taken [] l = absurd (omega arith)
first_taken (b ∷ bytes) l = refl

pub write_raw-raw_value :
    (m : Meta) (flip : Bool) (bytes : List ℕ)
    → IsSize m.size
    → IsBytes bytes
    → m.size ≤ length bytes
    → write_raw m.size flip (raw_value m bytes flip) ≡ take m.size bytes
write_raw-raw_value m flip bytes (inl e) h l =
    simp (e, to_unsigned-read_sign8 m.is_signed (get_or bytes 0 0) (first_fits bytes h))
      (first_taken bytes (omega (arith, e)))
write_raw-raw_value m flip bytes (inr (inl e)) h l =
    simp (e, to_unsigned-read_sign16 m.is_signed (read_int 2 bytes flip) (read_fits2 bytes flip h))
      (write-read2 bytes flip h (omega (arith, e)))
write_raw-raw_value m flip bytes (inr (inr e)) h l =
    simp (e, to_unsigned-read_sign32 m.is_signed (read_int 4 bytes flip) (read_fits4 bytes flip h))
      (write-read4 bytes flip h (omega (arith, e)))

pub raw_value_fits :
    (m : Meta) (flip : Bool) (bytes : List ℕ)
    → IsSize m.size
    → IsBytes bytes
    → validate_range (raw_value m bytes flip) m.size m.is_signed ≡ true
unfolding validate_range
raw_value_fits m flip bytes (inl e) h =
    simp e (read_sign_fits8 m.is_signed (get_or bytes 0 0) (first_fits bytes h))
raw_value_fits m flip bytes (inr (inl e)) h =
    simp e (read_sign_fits16 m.is_signed (read_int 2 bytes flip) (read_fits2 bytes flip h))
raw_value_fits m flip bytes (inr (inr e)) h =
    simp e (read_sign_fits32 m.is_signed (read_int 4 bytes flip) (read_fits4 bytes flip h))

pub write_raw-bit_pattern :
    (m : Meta) (flip : Bool) (bytes : List ℕ)
    → IsSize m.size
    → IsBytes bytes
    → m.size ≤ length bytes
    → write_raw m.size flip (pos (bit_pattern m bytes flip)) ≡ take m.size bytes
write_raw-bit_pattern m flip bytes (inl e) h l =
    let low : get_or bytes 0 0 % 2 ^ 8 ≡ get_or bytes 0 0 = omega (arith, first_fits bytes h) in
    simp (e, low) (first_taken bytes (omega (arith, e)))
write_raw-bit_pattern m flip bytes (inr (inl e)) h l =
    let low : read_int 2 bytes flip % 2 ^ 16 ≡ read_int 2 bytes flip =
      omega (arith, read_fits2 bytes flip h) in
    simp (e, low) (write-read2 bytes flip h (omega (arith, e)))
write_raw-bit_pattern m flip bytes (inr (inr e)) h l =
    let low : read_int 4 bytes flip % 2 ^ 32 ≡ read_int 4 bytes flip =
      omega (arith, read_fits4 bytes flip h) in
    simp (e, low) (write-read4 bytes flip h (omega (arith, e)))
