-- ===== src/Telegram.antt =====
-- src/ebus/core/telegram.hpp, class TelegramImpl: building and checking a telegram; parsing one is in the
-- child Parse.
pub mod Create
pub mod Slave
pub mod Frame
pub mod Parse
use ebus.Base.{List, false, if◌then◌else◌, ltb, not, ℕ, ◌+◌, ◌==◌, ◌||◌, ◌∷◌}
use ebus.Symbols
use ebus.Address.{is_master, is_target, type_of}
use ebus.Types.{TelegramType, SequenceState, is_ok}
use ebus.Sequence.{Sequence, size, assign_slice, byte_at, crc, reduce}
use ebus.Sequence

pub record Telegram : Type 0 where
  pub telegram_type : TelegramType
  pub master : Sequence
  pub master_nn : ℕ
  pub master_crc : ℕ
  pub master_ack : ℕ
  pub master_state : SequenceState
  pub slave : Sequence
  pub slave_nn : ℕ
  pub slave_crc : ℕ
  pub slave_ack : ℕ
  pub slave_state : SequenceState

-- `clear`, and a new telegram.
abbrev pub cleared : Telegram
cleared = record {
  telegram_type = TelegramType.undefined;
  master = Sequence.empty;
  master_nn = 0;
  master_crc = Symbols.zero;
  master_ack = Symbols.zero;
  master_state = SequenceState.seq_empty;
  slave = Sequence.empty;
  slave_nn = 0;
  slave_crc = Symbols.zero;
  slave_ack = Symbols.zero;
  slave_state = SequenceState.seq_empty;
}

-- SequenceLimits::max_data_bytes and the sizes and positions of the class.
abbrev pub max_data_bytes : ℕ
max_data_bytes = 16

abbrev pub master_header_size : ℕ
master_header_size = 5

abbrev pub slave_header_size : ℕ
slave_header_size = 1

abbrev pub crc_size : ℕ
crc_size = 1

-- The tests of `createMaster` on the reduced sequence, in order, up to the length of the data.
unfoldable pub master_error : Sequence → SequenceState
master_error s =
    let nn = byte_at s 4 in
    let pb = byte_at s 2 in
    let sb = byte_at s 3 in
    if ltb (size s) master_header_size
    then SequenceState.err_seq_too_short
    else if not (is_master (byte_at s 0))
    then SequenceState.err_source_address
    else if not (is_target (byte_at s 1))
    then SequenceState.err_target_address
    else if ltb max_data_bytes nn
    then SequenceState.err_data_byte
    else if (pb == Symbols.syn || pb == Symbols.ext) || (sb == Symbols.syn || sb == Symbols.ext)
    then SequenceState.err_data_byte
    else if ltb (size s) (master_header_size + nn)
    then SequenceState.err_seq_too_short
    else SequenceState.seq_ok

-- The rest of `createMaster`, where those tests pass: the CRC is computed, or compared if it is there.
unfoldable pub fill_master : Sequence → Telegram → Telegram
fill_master s t =
    let nn = byte_at s 4 in
    let len = master_header_size + nn in
    let body = assign_slice s 0 len in
    let t' = record t { telegram_type = type_of (byte_at s 1); master_nn = nn } in
    if size s == len
    then record t' {
      master = assign_slice s 0 0;
      master_crc = crc s;
      master_state = SequenceState.seq_ok;
    }
    else if size s == len + crc_size
    then record t' {
      master = body;
      master_crc = byte_at s len;
      master_state =
          if crc body == byte_at s len then SequenceState.seq_ok else SequenceState.err_crc_invalid;
    }
    else record t' { master_state = SequenceState.err_seq_too_long }

-- `createMaster` on a sequence that is reduced already. Where the argument is the telegram's own
-- `master_`, as in `parse`, the CRC byte is read from the buffer behind the shortened sequence.
unfoldable pub create_master_reduced : Sequence → Telegram → Telegram
create_master_reduced s t =
    if is_ok (master_error s) then fill_master s t else record t { master_state = master_error s }

-- `createMaster(SequenceImpl&)`: the telegram, and the argument, which is left reduced.
unfoldable pub create_master : Sequence → Telegram → Telegram × Sequence
unfolding create_master_reduced
create_master sequence t = (create_master_reduced (reduce sequence) t, reduce sequence)

abbrev pub of_bytes : List ℕ → Sequence
of_bytes bytes = record { sequence = bytes; extended = false }

-- `createMaster(source_address, data)`.
unfoldable pub create_master_from : ℕ → List ℕ → Telegram → Telegram
unfolding create_master
create_master_from source data' t = (create_master (of_bytes (source ∷ data')) t).0

unfoldable pub slave_error : Sequence → SequenceState
slave_error s =
    if ltb (size s) 2
    then SequenceState.err_seq_too_short
    else if ltb max_data_bytes (byte_at s 0)
    then SequenceState.err_data_byte
    else if ltb (size s) (slave_header_size + byte_at s 0)
    then SequenceState.err_seq_too_short
    else SequenceState.seq_ok

unfoldable pub fill_slave : Sequence → Telegram → Telegram
fill_slave s t =
    let nn = byte_at s 0 in
    let len = 1 + nn in
    let body = assign_slice s 0 len in
    let t' = record t { slave_nn = nn } in
    if size s == len
    then record t' {
      slave = assign_slice s 0 0;
      slave_crc = crc s;
      slave_state = SequenceState.seq_ok;
    }
    else if size s == len + 1
    then record t' {
      slave = body;
      slave_crc = byte_at s len;
      slave_state =
          if crc body == byte_at s len then SequenceState.seq_ok else SequenceState.err_crc_invalid;
    }
    else record t' { slave_state = SequenceState.err_seq_too_long }

unfoldable pub create_slave_reduced : Sequence → Telegram → Telegram
create_slave_reduced s t =
    if is_ok (slave_error s) then fill_slave s t else record t { slave_state = slave_error s }

unfoldable pub create_slave : Sequence → Telegram → Telegram × Sequence
unfolding create_slave_reduced
create_slave sequence t = (create_slave_reduced (reduce sequence) t, reduce sequence)

unfoldable pub create_slave_from : List ℕ → Telegram → Telegram
unfolding create_slave
create_slave_from data' t = (create_slave (of_bytes data') t).0
