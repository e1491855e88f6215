-- ===== src/Enhanced.antt =====
-- src/ebus/app/enhanced_protocol.hpp: how a client's command or a response to it is packed into two
-- bytes that no plain byte of the bus can be taken for.
pub mod RoundTrip
use ebus.Base.{Bool, bit_and, bit_or, ◌%◌, ◌&&◌, ◌*◌, ◌/◌, ◌==◌}
use Prim.Native.Nat.{ℕ}

pub data Command : Type 0 where
  init send start info : Command

pub data Response : Type 0 where
  resetted received started info failed error_ebus error_host : Response

-- The values of the enumerators.
abbrev pub command_value : Command → ℕ
command_value Command.init = 0x00
command_value Command.send = 0x01
command_value Command.start = 0x02
command_value Command.info = 0x03

abbrev pub response_value : Response → ℕ
response_value Response.resetted = 0x00
response_value Response.received = 0x01
response_value Response.started = 0x02
response_value Response.info = 0x03
response_value Response.failed = 0x0a
response_value Response.error_ebus = 0x0b
response_value Response.error_host = 0x0c

-- 11cc ccdd, 10dd dddd.
unfoldable pub encode : ℕ → ℕ → ℕ × ℕ
encode cmd val = (bit_or 0xc0 (bit_or (cmd * 4) (val / 64)) % 256, bit_or 0x80 (bit_and val 0x3f))

unfoldable pub decode : ℕ × ℕ → ℕ × ℕ
decode (b1, b2) = (bit_and (b1 / 4) 0x0f, bit_or (bit_and b1 0x03 * 64) (bit_and b2 0x3f))

unfoldable pub is_valid_sequence : ℕ → ℕ → Bool
is_valid_sequence b1 b2 = bit_and b1 0xc0 == 0xc0 && bit_and b2 0xc0 == 0x80
