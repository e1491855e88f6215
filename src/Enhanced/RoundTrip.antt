-- ===== src/Enhanced/RoundTrip.antt =====
-- Packing and unpacking of src/ebus/app/enhanced_protocol.hpp undo each other.
use ebus.Base.{
  Bool, arith, holds_below, holds_below_at, ltb, not, refl, true, ℕ, ◌&&◌, ◌<◌, ◌==◌, ◌||◌, ◌≡◌,
}
use ebus.Enhanced.{encode, decode, is_valid_sequence}

same_pair : (a b : ℕ × ℕ) → ((a.0 == b.0) && (a.1 == b.1)) ≡ true → a ≡ b
same_pair (x, y) (z, w) h = ground (arith, h)

abbrev packs : ℕ → ℕ → Bool
packs cmd val =
    let (b1, b2) = encode cmd val in
    let (cmd', val') = decode (b1, b2) in
    (cmd' == cmd && val' == val) && (is_valid_sequence b1 b2 && (ltb b1 256 && ltb b2 256))

packs_table : holds_below 16 (λ cmd. holds_below 256 (packs cmd)) ≡ true
unfolding holds_below encode decode is_valid_sequence
packs_table = refl

-- Every four-bit command and every byte with it are read back from the two bytes, and these are a valid
-- sequence of bytes.
pub decode-encode :
    (cmd val : ℕ)
    → cmd < 16
    → val < 256
    → let b = encode cmd val in
      (decode b ≡ (cmd, val)) × (is_valid_sequence b.0 b.1 ≡ true) × (b.0 < 256) × (b.1 < 256)
decode-encode cmd val hc hv =
    let t =
      holds_below_at 256 (packs cmd) val
        (holds_below_at 16 (λ cmd. holds_below 256 (packs cmd)) cmd packs_table hc) hv in
    (
      same_pair (decode (encode cmd val)) (cmd, val) (ground (arith, t)),
      ground (arith, t),
      ground (arith, t),
      ground (arith, t),
    )

abbrev unpacks : ℕ → ℕ → Bool
unpacks b1 b2 =
    let b = encode (decode (b1, b2)).0 (decode (b1, b2)).1 in
    not (is_valid_sequence b1 b2) || (b.0 == b1 && b.1 == b2)

unpacks_table : holds_below 256 (λ b1. holds_below 256 (unpacks b1)) ≡ true
unfolding holds_below encode decode is_valid_sequence
unpacks_table = refl

-- A valid sequence of two bytes is what its command and value are packed into.
pub encode-decode :
    (b1 b2 : ℕ)
    → b1 < 256
    → b2 < 256
    → is_valid_sequence b1 b2 ≡ true
    → encode (decode (b1, b2)).0 (decode (b1, b2)).1 ≡ (b1, b2)
encode-decode b1 b2 h1 h2 v =
    let t =
      holds_below_at 256 (unpacks b1) b2
        (holds_below_at 256 (λ b1. holds_below 256 (unpacks b1)) b1 unpacks_table h1) h2 in
    let b = encode (decode (b1, b2)).0 (decode (b1, b2)).1 in
    same_pair b (b1, b2) (ground (arith, t, v))
