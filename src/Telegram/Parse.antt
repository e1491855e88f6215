-- ===== src/Telegram/Parse.antt =====
-- src/ebus/core/telegram.hpp: `parse`, which reads both parts of a telegram with their acknowledge bytes
-- and one retry of each.
pub mod Sound
use ebus.Base.{Bool, false, if◌then◌else◌, leb, ltb, not, true, ℕ, ◌&&◌, ◌+◌, ◌==◌, ◌||◌}
use ebus.Symbols
use ebus.Address.{is_master, is_target}
use ebus.Types.{SequenceState, is_broadcast, is_master_slave, is_ok}
use ebus.Sequence.{Sequence, size, assign_slice, byte_at, reduce}
use ebus.Telegram.{
  Telegram, cleared, crc_size, create_master, create_slave, master_header_size, max_data_bytes,
  slave_header_size,
}

-- `checkMasterSequence`. The last test compares the whole size, without the offset.
unfoldable pub check_master_sequence : Sequence → ℕ → SequenceState
check_master_sequence s offset =
    if ltb (size s) (offset + master_header_size)
    then SequenceState.err_seq_too_short
    else if not (is_master (byte_at s offset))
    then SequenceState.err_source_address
    else if not (is_target (byte_at s (offset + 1)))
    then SequenceState.err_target_address
    else if ltb max_data_bytes (byte_at s (offset + 4))
    then SequenceState.err_data_byte
    else if ltb (size s) (master_header_size + byte_at s (offset + 4) + crc_size)
    then SequenceState.err_seq_too_short
    else SequenceState.seq_ok

unfoldable pub check_slave_sequence : Sequence → ℕ → SequenceState
check_slave_sequence s offset =
    if ltb (size s) (offset + slave_header_size)
    then SequenceState.err_seq_too_short
    else if ltb max_data_bytes (byte_at s offset)
    then SequenceState.err_data_byte
    else if ltb (size s) (offset + slave_header_size + byte_at s offset + crc_size)
    then SequenceState.err_seq_too_short
    else SequenceState.seq_ok

-- The telegram, the cursor, and whether to go on.
pub record Part : Type 0 where
  pub telegram : Telegram
  pub offset : ℕ
  pub go_on : Bool

abbrev pub is_acknowledge : ℕ → Bool
is_acknowledge byte = byte == Symbols.ack || byte == Symbols.nak

-- The acknowledge byte behind the master part.
unfoldable pub read_master_ack : Sequence → ℕ → Telegram → Part
read_master_ack s offset t =
    let byte = byte_at s offset in
    let t' = record t { master_ack = byte } in
    if leb (size s) offset
    then record {
      telegram = record t { master_state = SequenceState.err_ack_missing };
      offset = offset;
      go_on = false;
    }
    else if not (is_acknowledge byte)
    then record {
      telegram = record t' { master_state = SequenceState.err_ack_invalid };
      offset = offset + 1;
      go_on = false;
    }
    else record { telegram = t'; offset = offset + 1; go_on = true }

-- `parseSequencePart(sequence, offset, true)`.
unfoldable pub parse_master_part : Sequence → ℕ → Telegram → Part
unfolding read_master_ack
parse_master_part s offset t =
    let checked = check_master_sequence s offset in
    let len = master_header_size + byte_at s (offset + 4) + crc_size in
    let slice = assign_slice s offset len in
    let t' = (create_master slice (record t { master = slice; master_state = checked })).0 in
    if not (is_ok checked)
    then record { telegram = record t { master_state = checked }; offset = offset; go_on = false }
    else if not (is_ok t'.master_state)
    then record { telegram = t'; offset = offset + len; go_on = false }
    else if is_broadcast t'.telegram_type
    then record { telegram = t'; offset = offset + len; go_on = true }
    else read_master_ack s (offset + len) t'

unfoldable pub read_slave_ack : Sequence → ℕ → Telegram → Part
read_slave_ack s offset t =
    let byte = byte_at s offset in
    let t' = record t { slave_ack = byte } in
    if leb (size s) offset
    then record {
      telegram = record t { slave_state = SequenceState.err_ack_missing };
      offset = offset;
      go_on = false;
    }
    else if not (is_acknowledge byte)
    then record {
      telegram = record t' { slave_state = SequenceState.err_ack_invalid };
      offset = offset + 1;
      go_on = false;
    }
    else record { telegram = t'; offset = offset + 1; go_on = true }

-- `parseSequencePart(sequence, offset, false)`.
unfoldable pub parse_slave_part : Sequence → ℕ → Telegram → Part
unfolding read_slave_ack
parse_slave_part s offset t =
    let checked = check_slave_sequence s offset in
    let len = slave_header_size + byte_at s offset + crc_size in
    let slice = assign_slice s offset len in
    let t' = (create_slave slice (record t { slave = slice; slave_state = checked })).0 in
    if not (is_ok checked)
    then record { telegram = record t { slave_state = checked }; offset = offset; go_on = false }
    else if not (is_ok t'.slave_state)
    then record { telegram = t'; offset = offset + len; go_on = false }
    else read_slave_ack s (offset + len) t'

-- The master part of `parse`, with one retry behind a NAK.
unfoldable pub parse_master : Sequence → Telegram → Part
parse_master s t =
    let a = parse_master_part s 0 t in
    let b = parse_master_part s a.offset a.telegram in
    if not a.go_on
    then a
    else if not (is_broadcast a.telegram.telegram_type) && a.telegram.master_ack == Symbols.nak
    then (if b.go_on && b.telegram.master_ack == Symbols.nak
        then record b {
          telegram = record (b.telegram) { master_state = SequenceState.err_ack_negative };
        }
        else b)
    else a

-- The slave part of `parse`, with one retry behind a NAK.
unfoldable pub parse_slave : Sequence → Part → Telegram
parse_slave s p =
    let a = parse_slave_part s p.offset p.telegram in
    let b = parse_slave_part s a.offset a.telegram in
    if a.go_on && a.telegram.slave_ack == Symbols.nak
    then (if b.go_on && b.telegram.slave_ack == Symbols.nak
        then record (b.telegram) { slave_state = SequenceState.err_ack_negative }
        else b.telegram)
    else a.telegram

-- `parse`: the telegram of a sequence, which is left reduced.
unfoldable pub parse : Sequence → Telegram × Sequence
unfolding parse_master parse_slave
parse sequence =
    let s = reduce sequence in
    let p = parse_master s cleared in
    let t =
      if not p.go_on || not (is_ok p.telegram.master_state)
      then p.telegram
      else if is_master_slave p.telegram.telegram_type
      then parse_slave s p
      else p.telegram in
    (t, s)

unfoldable pub is_valid : Telegram → Bool
is_valid t =
    if not (is_master_slave t.telegram_type)
    then is_ok t.master_state
    else is_ok t.master_state && is_ok t.slave_state
