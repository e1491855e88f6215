-- ===== src/Crc.antt =====
-- include/ebus/protocol_math.hpp: the 8-bit CRC over the polynomial 0x9b, and its table.
pub mod Laws
use ebus.Base.{
  ℕ, zero, suc, ◌+◌, ◌*◌, ◌%◌, ltb, leb, ◌==◌, if◌then◌else◌, bit_and, bit_xor, List, [], ◌∷◌, map,
  get_or,
}

-- One round of the loop body: shift left, and reduce where the top bit was set.
crc_round : ℕ → ℕ
crc_round crc = if bit_and crc 0x80 == 0 then (crc * 2) % 256 else bit_xor (crc * 2) 0x9b % 256

-- The loop `for (i = 0; i < 8; ++i)`, on the rounds left.
crc_rounds : ℕ → ℕ → ℕ
crc_rounds zero crc = crc
crc_rounds (suc n) crc = crc_rounds n (crc_round crc)

unfoldable pub calculate_crc_entry : ℕ → ℕ
unfolding crc_round crc_rounds
calculate_crc_entry index = crc_rounds 8 index

-- The entries from `i` on, `n` of them.
crc_entries : ℕ → ℕ → List ℕ
crc_entries zero i = []
crc_entries (suc n) i = calculate_crc_entry i ∷ crc_entries n (i + 1)

unfoldable pub generate_crc_table : List ℕ
unfolding crc_entries calculate_crc_entry
generate_crc_table = crc_entries 256 0

unfoldable pub calc_crc : ℕ → ℕ → ℕ
unfolding generate_crc_table
calc_crc byte init = bit_xor (get_or generate_crc_table init 0) byte % 256
