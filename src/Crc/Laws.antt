-- ===== src/Crc/Laws.antt =====
-- Laws of the CRC step of include/ebus/protocol_math.hpp: it loses nothing of either argument.
use ebus.Base.{
  holds_below, holds_below_at, ap, arith, bit_xor, get_or, if◌then◌else◌, ltb, refl, suc, sym, true,
  zero, ℕ, ◌%◌, ◌&&◌, ◌+◌, ◌/◌, ◌<◌, ◌==◌, ◌∙◌, ◌≡◌,
}
use ebus.Crc.{crc_entries, calculate_crc_entry, generate_crc_table, calc_crc}

xor_table :
    holds_below 256 (λ t.
      holds_below 256
        (λ b. (bit_xor t (bit_xor t b % 256) == b) && (bit_xor (bit_xor t b % 256) b == t)))
    ≡ true
unfolding holds_below
xor_table = refl

xor_cancels :
    (t b : ℕ)
    → t < 256
    → b < 256
    → ((bit_xor t (bit_xor t b % 256) == b) && (bit_xor (bit_xor t b % 256) b == t)) ≡ true
xor_cancels t b ht hb =
    holds_below_at 256
      (λ b. (bit_xor t (bit_xor t b % 256) == b) && (bit_xor (bit_xor t b % 256) b == t)) b
      (holds_below_at 256
        (λ t.
          holds_below 256
            (λ b. (bit_xor t (bit_xor t b % 256) == b) && (bit_xor (bit_xor t b % 256) b == t)))
        t xor_table ht)
      hb

xor_cancel_left : (t b : ℕ) → t < 256 → b < 256 → bit_xor t (bit_xor t b % 256) ≡ b
xor_cancel_left t b ht hb = ground (arith, xor_cancels t b ht hb)

xor_cancel_right : (t b : ℕ) → t < 256 → b < 256 → bit_xor (bit_xor t b % 256) b ≡ t
xor_cancel_right t b ht hb = ground (arith, xor_cancels t b ht hb)

-- The round run backwards: the lowest bit tells whether it reduced.
crc_unround : ℕ → ℕ
crc_unround crc = if crc % 2 == 0 then crc / 2 else bit_xor crc 0x9b / 2 + 128

crc_unrounds : ℕ → ℕ → ℕ
crc_unrounds zero crc = crc
crc_unrounds (suc n) crc = crc_unrounds n (crc_unround crc)

entry_table :
    holds_below 256
      (λ a. (crc_unrounds 8 (calculate_crc_entry a) == a) && ltb (calculate_crc_entry a) 256)
    ≡ true
unfolding holds_below crc_unrounds crc_unround calculate_crc_entry
entry_table = refl

entry_back :
    (a : ℕ) → a < 256 → (crc_unrounds 8 (calculate_crc_entry a) ≡ a) × (calculate_crc_entry a < 256)
entry_back a h = ground (
  arith,
  holds_below_at 256
      (λ a. (crc_unrounds 8 (calculate_crc_entry a) == a) && ltb (calculate_crc_entry a) 256) a
      entry_table h,
)

get_or-crc_entries :
    (n i k : ℕ) → k < n → get_or (crc_entries n i) k 0 ≡ calculate_crc_entry (i + k)
unfolding crc_entries
get_or-crc_entries zero i k h = absurd (omega arith)
get_or-crc_entries (suc n) i zero h = ap calculate_crc_entry (omega arith)
get_or-crc_entries (suc n) i (suc k) h =
    get_or-crc_entries n (i + 1) k (omega arith) ∙ ap calculate_crc_entry (omega arith)

-- The table lookup gives the entry that the loop computes.
pub calc_crc_lem :
    (byte init : ℕ)
    → init < 256
    → calc_crc byte init ≡ bit_xor (calculate_crc_entry init) byte % 256
unfolding calc_crc generate_crc_table
calc_crc_lem byte init h =
    ap (λ e. bit_xor e byte % 256)
      (get_or-crc_entries 256 0 init h ∙ ap calculate_crc_entry (omega arith))

pub calc_crc-lt : (byte init : ℕ) → calc_crc byte init < 256
unfolding calc_crc
calc_crc-lt byte init = omega arith

-- Two bytes that give one CRC are one byte.
pub calc_crc-byte_injective :
    (a b init : ℕ) → a < 256 → b < 256 → init < 256 → calc_crc a init ≡ calc_crc b init → a ≡ b
calc_crc-byte_injective a b init ha hb hi e =
    let t = calculate_crc_entry init in
    let ht = (entry_back init hi).1 in
    sym (xor_cancel_left t a ht ha)
    ∙ ap (bit_xor t) (sym (calc_crc_lem a init hi) ∙ e ∙ calc_crc_lem b init hi)
    ∙ xor_cancel_left t b ht hb

-- Two running CRCs that one byte takes to one CRC are one CRC.
pub calc_crc-init_injective :
    (byte i j : ℕ) → byte < 256 → i < 256 → j < 256 → calc_crc byte i ≡ calc_crc byte j → i ≡ j
calc_crc-init_injective byte i j h hi hj e =
    let t = calculate_crc_entry i in
    let u = calculate_crc_entry j in
    let same : t ≡ u =
      sym (xor_cancel_right t byte (entry_back i hi).1 h)
      ∙ ap (λ c. bit_xor c byte) (sym (calc_crc_lem byte i hi) ∙ e ∙ calc_crc_lem byte j hj)
      ∙ xor_cancel_right u byte (entry_back j hj).1 h in
    sym (entry_back i hi).0 ∙ ap (crc_unrounds 8) same ∙ (entry_back j hj).0
