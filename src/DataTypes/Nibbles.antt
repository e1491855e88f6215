-- ===== src/DataTypes/Nibbles.antt =====
-- The digits of a byte in src/ebus/models/data_types.cpp, and the bytes of a text.
use ebus.Base.{
  ==_iff, Bool, List, append-nil, arith, bit_and, holds_below, holds_below_at, length, length-take,
  ltb, not, take, take-all, true, ℕ, ◌%◌, ◌*◌, ◌+◌, ◌-◌, ◌/◌, ◌<◌, ◌==◌, ◌^◌, ◌||◌, ◌&&◌, ◌≡◌, ◌≤◌,
  false, refl,
}
use ebus.DataTypes.Codec.{bad_bcd}
use ebus.Sequence.{resize}

-- A byte of two decimal digits, put together again from its value.
abbrev digits_kept : ℕ → Bool
digits_kept val =
    let value = val / 2 ^ 4 * 10 + bit_and val 0x0f in
    bad_bcd val || not (ltb 99 value) && value / 10 * 2 ^ 4 + value % 10 == val

digits_table : holds_below 256 digits_kept ≡ true
unfolding holds_below
digits_table = refl

digits_read :
    (bad big same : Bool)
    → (bad || not big && same) ≡ true
    → bad ≡ false
    → (big ≡ false) × (same ≡ true)
digits_read bad big same h e = ground arith

pub digits_kept_byte :
    (val : ℕ)
    → val < 256
    → bad_bcd val ≡ false
    → let value = val / 2 ^ 4 * 10 + bit_and val 0x0f in
      (ltb 99 value ≡ false) × (value / 10 * 2 ^ 4 + value % 10 ≡ val)
digits_kept_byte val l e =
    let value = val / 2 ^ 4 * 10 + bit_and val 0x0f in
    let same = value / 10 * 2 ^ 4 + value % 10 in
    let kept = holds_below_at 256 digits_kept val digits_table l in
    let (small, equal) = digits_read (bad_bcd val) (ltb 99 value) (same == val) kept e in
    (small, (==_iff same val).0 equal)

pub resize-take : (n : ℕ) (xs : List ℕ) → n ≤ length xs → resize (take n xs) n ≡ take n xs
resize-take n xs l =
    let all : length (take n xs) ≡ n = omega (arith, length-take n xs) in
    let none_new : n - length (take n xs) ≡ 0 = omega arith in
    rw (take-all n (take n xs) (omega arith), none_new) (append-nil (take n xs))
