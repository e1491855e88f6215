-- ===== src/Tests/Enhanced.antt =====
-- src/ebus/app/enhanced_protocol.hpp on a concrete response.
use ebus.Base.{arith, refl, true, ◌<◌, ◌≡◌}
use ebus.Enhanced.{decode, encode, is_valid_sequence}
use ebus.Enhanced.RoundTrip.{decode-encode}

received_value : encode 0x01 0xaa ≡ (0xc6, 0xaa)
unfolding encode
received_value = refl

decode-encode_example :
    let b = encode 0x01 0xaa in
    (decode b ≡ (0x01, 0xaa)) × (is_valid_sequence b.0 b.1 ≡ true) × (b.0 < 256) × (b.1 < 256)
decode-encode_example = decode-encode 0x01 0xaa (omega arith) (omega arith)

pair_valid : is_valid_sequence 0xc6 0xaa ≡ true
unfolding is_valid_sequence
pair_valid = refl
