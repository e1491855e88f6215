-- ===== src/Address.antt =====
-- include/ebus/address.hpp: the rules for master, slave and target addresses.
pub mod Laws
use ebus.Base.{Bool, bit_and, if◌then◌else◌, ltb, not, ℕ, ◌%◌, ◌&&◌, ◌+◌, ◌-◌, ◌/◌, ◌==◌}
use ebus.Symbols
use ebus.Types.{TelegramType}

-- `((n + 1) & n) == 0` for the upper and the lower nibble.
unfoldable pub is_master : ℕ → Bool
is_master byte =
    bit_and (bit_and (byte / 16) 0x0f + 1) (bit_and (byte / 16) 0x0f) == 0
    && bit_and (bit_and byte 0x0f + 1) (bit_and byte 0x0f) == 0

unfoldable pub is_slave : ℕ → Bool
unfolding is_master
is_slave byte =
    not (is_master byte)
    && not (byte == Symbols.syn)
    && not (byte == Symbols.ext)
    && not (byte == Symbols.broad)

unfoldable pub is_target : ℕ → Bool
is_target byte = not (byte == Symbols.syn) && not (byte == Symbols.ext)

unfoldable pub master_of : ℕ → ℕ
unfolding is_master
master_of byte =
    if byte == 0x04
    then 0xff
    else if ltb byte 5
    then byte
    else if is_master (byte - 5)
    then byte - 5
    else byte

unfoldable pub slave_of : ℕ → ℕ
unfolding is_master is_slave
slave_of byte =
    if byte == 0xff
    then 0x04
    else if not (is_master byte)
    then byte
    else if is_slave ((byte + 5) % 256)
    then (byte + 5) % 256
    else byte

unfoldable pub type_of : ℕ → TelegramType
unfolding is_master
type_of byte =
    if byte == Symbols.broad
    then TelegramType.broadcast
    else if is_master byte
    then TelegramType.master_master
    else TelegramType.master_slave
