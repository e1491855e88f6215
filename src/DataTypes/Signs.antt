-- ===== src/DataTypes/Signs.antt =====
-- The sign of an integer of src/ebus/models/data_types.cpp, and its range.
use ebus.DataTypes.Codec.{integer_scale}
use ebus.Base.{
  Bool, Bool-cases, ap, arith, false, in_range, inl, inr, ltb, negsuc, pos, read_sign, refl, suc,
  times, to_unsigned, true, ℕ, ℤ, ◌*◌, ◌+◌, ◌/◌, ◌<◌, ◌^◌, ◌||◌, ◌≡◌,
}

pub to_unsigned-read_sign8 :
    (signed : Bool) (n : ℕ) → n < 2 ^ 8 → to_unsigned 8 (read_sign signed 8 n) ≡ n
to_unsigned-read_sign8 signed n l = ground arith

pub to_unsigned-read_sign16 :
    (signed : Bool) (n : ℕ) → n < 2 ^ 16 → to_unsigned 16 (read_sign signed 16 n) ≡ n
to_unsigned-read_sign16 signed n l = ground arith

pub to_unsigned-read_sign32 :
    (signed : Bool) (n : ℕ) → n < 2 ^ 32 → to_unsigned 32 (read_sign signed 32 n) ≡ n
to_unsigned-read_sign32 signed n l = ground arith

pub read_sign-to_unsigned8 :
    (signed : Bool) (z : ℤ) → in_range 8 signed z ≡ true → read_sign signed 8 (to_unsigned 8 z) ≡ z
read_sign-to_unsigned8 signed (pos n) l = ground arith
read_sign-to_unsigned8 signed (negsuc n) l = ground arith

pub read_sign-to_unsigned16 :
    (signed : Bool) (z : ℤ)
    → in_range 16 signed z ≡ true
    → read_sign signed 16 (to_unsigned 16 z) ≡ z
read_sign-to_unsigned16 signed (pos n) l = ground arith
read_sign-to_unsigned16 signed (negsuc n) l = ground arith

pub read_sign-to_unsigned32 :
    (signed : Bool) (z : ℤ)
    → in_range 32 signed z ≡ true
    → read_sign signed 32 (to_unsigned 32 z) ≡ z
read_sign-to_unsigned32 signed (pos n) l = ground arith
read_sign-to_unsigned32 signed (negsuc n) l = ground arith

pub to_unsigned_fits8 : (z : ℤ) → to_unsigned 8 z < 2 ^ 8
to_unsigned_fits8 (pos n) = omega arith
to_unsigned_fits8 (negsuc n) = omega arith

pub to_unsigned_fits16 : (z : ℤ) → to_unsigned 16 z < 2 ^ 16
to_unsigned_fits16 (pos n) = omega arith
to_unsigned_fits16 (negsuc n) = omega arith

pub to_unsigned_fits32 : (z : ℤ) → to_unsigned 32 z < 2 ^ 32
to_unsigned_fits32 (pos n) = omega arith
to_unsigned_fits32 (negsuc n) = omega arith

times_one : (z : ℤ) → times z 1 ≡ z
times_one (pos n) = ap pos (omega arith)
times_one (negsuc n) = let one : (n + 1) * 1 ≡ suc n = omega arith in rw one refl

-- What 32 bits hold is not touched by an integer scale of one.
pub integer_scale_one :
    (signed : Bool) (z : ℤ) → in_range 32 signed z ≡ true → integer_scale z 1 1 ≡ z
unfolding integer_scale
integer_scale_one signed (pos n) l = ground arith
integer_scale_one signed (negsuc n) l =
    let once = times_one (negsuc n) in
    let same : (n + 1 + 1 / 2) / 1 ≡ suc n = omega arith in rw (once, same) (ground arith)

pub in_range_wider :
    (signed : Bool) (z : ℤ)
    → (in_range 8 signed z || in_range 16 signed z) ≡ true
    → in_range 32 signed z ≡ true
in_range_wider signed (pos n) l = ground arith
in_range_wider signed (negsuc n) l = ground arith

pub read_sign_fits8 :
    (signed : Bool) (n : ℕ) → n < 2 ^ 8 → in_range 8 signed (read_sign signed 8 n) ≡ true
read_sign_fits8 true n l = elim (Bool-cases (ltb n (2 ^ 7))) [
  | inl e ↦ simp e (ground arith)
  | inr e ↦ simp e (ground arith)
]
read_sign_fits8 false n l = ground arith

pub read_sign_fits16 :
    (signed : Bool) (n : ℕ) → n < 2 ^ 16 → in_range 16 signed (read_sign signed 16 n) ≡ true
read_sign_fits16 true n l = elim (Bool-cases (ltb n (2 ^ 15))) [
  | inl e ↦ simp e (ground arith)
  | inr e ↦ simp e (ground arith)
]
read_sign_fits16 false n l = ground arith

pub read_sign_fits32 :
    (signed : Bool) (n : ℕ) → n < 2 ^ 32 → in_range 32 signed (read_sign signed 32 n) ≡ true
read_sign_fits32 true n l = elim (Bool-cases (ltb n (2 ^ 31))) [
  | inl e ↦ simp e (ground arith)
  | inr e ↦ simp e (ground arith)
]
read_sign_fits32 false n l = ground arith
