-- ===== src/Symbols.antt =====
-- include/ebus/address.hpp, struct Symbols: the bytes with a meaning of their own, and byte stuffing.
use ebus.Base.{ℕ, Bool, ◌||◌, Option, none, some, ◌==◌, if◌then◌else◌}

abbrev pub zero : ℕ
zero = 0x00

abbrev pub syn : ℕ
syn = 0xaa

abbrev pub ext : ℕ
ext = 0xa9

abbrev pub syn_ext : ℕ
syn_ext = 0x01

abbrev pub ext_ext : ℕ
ext_ext = 0x00

abbrev pub ack : ℕ
ack = 0x00

abbrev pub nak : ℕ
nak = 0xff

abbrev pub broad : ℕ
broad = 0xfe

unfoldable pub needs_escape : ℕ → Bool
needs_escape byte = byte == syn || byte == ext

-- `out[0]` and `out[1]`.
unfoldable pub escape : ℕ → ℕ × ℕ
escape byte = (ext, if byte == syn then syn_ext else ext_ext)

-- `none` stands for the return value false; otherwise the value is what `out` receives.
unfoldable pub unescape : ℕ → ℕ → Option ℕ
unescape b1 b2 =
    if b1 == ext
    then (if b2 == syn_ext then some syn else if b2 == ext_ext then some ext else none)
    else none
