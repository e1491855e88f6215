-- ===== src/Sequence/Checksum.antt =====
-- The CRC of a sequence (include/ebus/sequence.hpp) over both formats, and what it detects.
use ebus.Base.{
  Bool, Bool-cases, List, [], arith, false, inl, inr, refl, sym, true, ℕ, ◌++◌, ◌<◌, ◌∙◌, ◌∷◌, ◌≡◌,
  ◌≢◌,
}
use ebus.Crc.{calc_crc}
use ebus.Crc.Laws.{calc_crc-lt, calc_crc-byte_injective, calc_crc-init_injective}
use ebus.Symbols.{needs_escape, escape}
use ebus.Sequence.{Sequence, calculate_crc, crc, crc_byte, crc_loop, extend}
use ebus.Sequence.Spec.{escape_all, escape_byte, IsBytes}
use ebus.Sequence.Extend.{sequence-extend, extended-extend}

pub crc_loop-append :
    (extended : Bool) (c : ℕ) (xs ys : List ℕ)
    → crc_loop extended c (xs ++ ys) ≡ crc_loop extended (crc_loop extended c xs) ys
unfolding crc_loop
crc_loop-append extended c [] ys = refl
crc_loop-append extended c (x ∷ xs) ys = crc_loop-append extended (crc_byte extended c x) xs ys

crc_loop-escape_all : (c : ℕ) (xs : List ℕ) → crc_loop true c (escape_all xs) ≡ crc_loop false c xs
unfolding crc_loop crc_byte escape_all escape_byte
crc_loop-escape_all c [] = refl
crc_loop-escape_all c (x ∷ xs) = elim (Bool-cases (needs_escape x)) [
  | inl e ↦
      rw (e, escape_byte) (crc_loop-escape_all (calc_crc (escape x).1 (calc_crc (escape x).0 c)) xs)
  | inr e ↦ rw (e, escape_byte) (crc_loop-escape_all (calc_crc x c) xs)
]

-- The CRC is that of the wire bytes: extending a sequence does not change it.
pub crc-extend : (s : Sequence) → crc (extend s) ≡ crc s
unfolding crc calculate_crc
crc-extend s = elim (Bool-cases s.extended) [
  | inl e ↦ rw (extended-extend s, sequence-extend s, e) refl
  | inr e ↦ rw (extended-extend s, sequence-extend s, e) (crc_loop-escape_all 0 s.sequence)
]

pub crc_byte-lt : (extended : Bool) (c x : ℕ) → crc_byte extended c x < 256
unfolding crc_byte
crc_byte-lt extended c x =
    ground (arith, calc_crc-lt x c, calc_crc-lt (escape x).1 (calc_crc (escape x).0 c))

crc_loop-lt : (extended : Bool) (c : ℕ) (xs : List ℕ) → c < 256 → crc_loop extended c xs < 256
unfolding crc_loop
crc_loop-lt extended c [] h = h
crc_loop-lt extended c (x ∷ xs) h =
    crc_loop-lt extended (crc_byte extended c x) xs (crc_byte-lt extended c x)

pub crc-lt : (s : Sequence) → crc s < 256
unfolding crc calculate_crc
crc-lt s = crc_loop-lt s.extended 0 s.sequence (omega arith)

crc_loop-injective :
    (c d : ℕ) (xs : List ℕ)
    → IsBytes xs
    → c < 256
    → d < 256
    → crc_loop true c xs ≡ crc_loop true d xs
    → c ≡ d
unfolding crc_loop crc_byte
crc_loop-injective c d [] h hc hd e = e
crc_loop-injective c d (x ∷ xs) h hc hd e =
    calc_crc-init_injective x c d h.0 hc hd (
      crc_loop-injective (calc_crc x c) (calc_crc x d) xs h.1 (calc_crc-lt x c) (calc_crc-lt x d) e)

-- A single wrong byte on the wire changes the CRC: two extended sequences that differ in one byte
-- have different CRCs.
pub crc-detects_byte :
    (before : List ℕ) (a b : ℕ) (after : List ℕ)
    → a < 256
    → b < 256
    → IsBytes after
    → a ≢ b
    → crc (record { sequence = before ++ a ∷ after; extended = true })
      ≢ crc (record { sequence = before ++ b ∷ after; extended = true })
unfolding crc calculate_crc
crc-detects_byte before a b after ha hb h ne e =
    let c = crc_loop true 0 before in
    let hc : c < 256 = crc_loop-lt true 0 before (omega arith) in
    ne (
      calc_crc-byte_injective a b c ha hb hc (
        crc_loop-injective (calc_crc a c) (calc_crc b c) after h (calc_crc-lt a c) (calc_crc-lt b c)
          (unfold crc_loop crc_byte in
            sym (crc_loop-append true 0 before (a ∷ after))
            ∙ e
            ∙ crc_loop-append true 0 before (b ∷ after))))
