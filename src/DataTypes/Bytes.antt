-- ===== src/DataTypes/Bytes.antt =====
-- The bytes of an integer in src/ebus/models/data_types.cpp, include/ebus/protocol_math.hpp's `swapEndian`,
-- and the reading of a hexadecimal number.
use ebus.Base.{
  Bool, List, Option, [], drop, false, if◌then◌else◌, leb, ltb, neg, none, pos, some, suc, zero, ℕ,
  ℤ, ◌%◌, ◌&&◌, ◌*◌, ◌+◌, ◌-◌, ◌/◌, ◌==◌, ◌^◌, ◌||◌, ◌∷◌,
}

-- The parts that `|` joins have no bit in common, and are added.
unfoldable pub swap_endian : ℕ → ℕ → ℕ
swap_endian size val =
    if size == 2
    then (val / 2 ^ 8 + val * 2 ^ 8) % 2 ^ 16
    else if size == 4
    then val / 2 ^ 24 % 2 ^ 8
      + val / 2 ^ 16 % 2 ^ 8 * 2 ^ 8
      + val / 2 ^ 8 % 2 ^ 8 * 2 ^ 16
      + val % 2 ^ 8 * 2 ^ 24
    else val

-- The loop of `readInt`, which adds byte i times 2 ^ (8 i), and that of `writeInt`.
unfoldable pub join_bytes : ℕ → List ℕ → ℕ
join_bytes zero bytes = 0
join_bytes (suc n) [] = 0
join_bytes (suc n) (b ∷ bytes) = b + 2 ^ 8 * join_bytes n bytes

unfoldable pub low_bytes : ℕ → ℕ → List ℕ
low_bytes zero val = []
low_bytes (suc n) val = val % 2 ^ 8 ∷ low_bytes n (val / 2 ^ 8)

unfoldable pub read_int : ℕ → List ℕ → Bool → ℕ
unfolding join_bytes swap_endian
read_int size bytes flip =
    let val = join_bytes size bytes in if flip then swap_endian size val else val

unfoldable pub write_int : ℕ → ℕ → Bool → List ℕ
unfolding low_bytes swap_endian
write_int size val flip = low_bytes size (if flip then swap_endian size val else val)

abbrev pub hex_digit : ℕ → Option ℕ
hex_digit c =
    if leb 0x30 c && leb c 0x39
    then some (c - 0x30)
    else if leb 0x41 c && leb c 0x46
    then some (c - 0x41 + 10)
    else if leb 0x61 c && leb c 0x66
    then some (c - 0x61 + 10)
    else none

-- The digits in front, to what is read before them; without any the value is none.
unfoldable pub hex_digits : ℕ → List ℕ → ℕ
hex_digits acc [] = acc
hex_digits acc (c ∷ cs) = elim (hex_digit c) [ none ↦ acc | some d ↦ hex_digits (acc * 16 + d) cs ]

-- `std::from_chars` to 64 bits with a sign; without a digit or out of range the value is 0.
unfoldable pub from_chars : List ℕ → ℤ
unfolding hex_digits
from_chars [] = pos 0
from_chars (c ∷ cs) =
    let positive = hex_digits 0 (c ∷ cs) in
    let negative = hex_digits 0 cs in
    if c == 0x2d
    then (if ltb (2 ^ 63) negative then pos 0 else neg negative)
    else if leb (2 ^ 63) positive
    then pos 0
    else pos positive

-- The string's value in `asInt64`: a prefix 0x is dropped.
abbrev pub has_prefix : List ℕ → Bool
has_prefix (a ∷ b ∷ cs) = a == 0x30 && (b == 0x78 || b == 0x58)
has_prefix _ = false

unfoldable pub hex_number : List ℕ → ℤ
unfolding from_chars
hex_number text = from_chars (if has_prefix text then drop 2 text else text)
