-- ===== src/Tests/Wire.antt =====
-- include/ebus/sequence.hpp, address.hpp and protocol_math.hpp on concrete bytes.
use ebus.Base.{[], arith, false, if◌then◌else◌, refl, true, ◌∷◌, ◌≡◌, ◌≢◌}
use ebus.Address.{is_master}
use ebus.Sequence.{Sequence, crc, extend, reduce}
use ebus.Sequence.Spec.{is_wire, escape_all}
use ebus.Sequence.Extend.{sequence-extend}
use ebus.Sequence.RoundTrip.{reduce-extend, extend-reduce}
use ebus.Sequence.Checksum.{crc-detects_byte}

abbrev plain : Sequence
plain = record { sequence = 0x10 ∷ 0xaa ∷ 0xa9 ∷ []; extended = false }

abbrev wired : Sequence
wired = record { sequence = 0x10 ∷ 0xa9 ∷ 0x01 ∷ 0xa9 ∷ 0x00 ∷ []; extended = true }

extend-plain : extend plain ≡ wired
unfolding extend ebus.Sequence.count_if ebus.Symbols.needs_escape ebus.Sequence.extend_loop
    ebus.Sequence.extend_round ebus.Symbols.escape
extend-plain = refl

reduce-wired : reduce wired ≡ plain
unfolding reduce ebus.Sequence.needs_reduction ebus.Sequence.reduce_loop ebus.Sequence.reduce_read
    ebus.Symbols.unescape
reduce-wired = refl

crc-plain : crc plain ≡ crc wired
unfolding crc ebus.Sequence.calculate_crc ebus.Sequence.crc_loop ebus.Sequence.crc_byte
    ebus.Crc.calc_crc ebus.Symbols.needs_escape ebus.Symbols.escape
crc-plain = refl

reduce-extend_example : (reduce (extend plain) ≡ plain) × (is_wire (extend plain).sequence ≡ true)
reduce-extend_example = reduce-extend plain refl

wired-is_wire : is_wire wired.sequence ≡ true
unfolding is_wire ebus.Symbols.unescape ebus.Symbols.needs_escape
wired-is_wire = refl

extend-reduce_example : extend (reduce wired) ≡ wired
extend-reduce_example = extend-reduce wired refl wired-is_wire

crc-detects_byte_example :
    crc (record { sequence = 0x10 ∷ 0xfe ∷ 0x07 ∷ []; extended = true })
    ≢ crc (record { sequence = 0x10 ∷ 0xff ∷ 0x07 ∷ []; extended = true })
crc-detects_byte_example =
    crc-detects_byte (0x10 ∷ []) 0xfe 0xff (0x07 ∷ []) (omega arith) (omega arith) (omega arith, tt)
      (ground arith)

master_10 : is_master 0x10 ≡ true
unfolding is_master
master_10 = refl

sequence-extend_example :
    (extend plain).sequence ≡ (if plain.extended then plain.sequence else escape_all plain.sequence)
sequence-extend_example = sequence-extend plain
