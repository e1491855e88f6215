-- ===== src/Tests/Telegrams.antt =====
-- src/ebus/core/telegram.hpp and the framing of src/ebus/utils/utils.cpp on concrete telegrams.
use ebus.Base.{List, [], arith, inl, refl, true, ℕ, ◌++◌, ◌∷◌, ◌≡◌}
use ebus.Address.{is_master, is_target}
use ebus.Symbols.{needs_escape}
use ebus.Types.{SequenceState}
use ebus.Sequence.{Sequence, crc, reduce}
use ebus.Sequence.Spec.{is_wire}
use ebus.Telegram.{cleared, create_master, create_slave, of_bytes}
use ebus.Telegram.Create.{IsMasterPart, MasterOf, create_master_sound, create_master_complete}
use ebus.Telegram.Slave.{IsSlavePart, SlaveOf, create_slave_sound}
use ebus.Telegram.Frame.{frame_master, create_master-frame_master}

-- A broadcast with one data byte, that must be escaped on the wire.
abbrev payload : List ℕ
payload = 0xfe ∷ 0x07 ∷ 0x04 ∷ 0x01 ∷ 0xaa ∷ []

abbrev master_bytes : List ℕ
master_bytes = 0x10 ∷ payload

abbrev slave_bytes : List ℕ
slave_bytes = 0x02 ∷ 0x11 ∷ 0xa9 ∷ []

master_part : IsMasterPart master_bytes
unfolding is_master is_target needs_escape
master_part = record {
  source = refl;
  target = refl;
  primary = refl;
  secondary = refl;
  count = omega arith;
  whole = refl;
}

slave_part : IsSlavePart slave_bytes
slave_part = record { count = omega arith; whole = refl }

bare_ok : (create_master (of_bytes master_bytes) cleared).0.master_state ≡ SequenceState.seq_ok
unfolding create_master ebus.Telegram.master_error reduce is_master is_target
    ebus.Telegram.fill_master
bare_ok = refl

bare_reduced : (reduce (of_bytes master_bytes)).sequence ≡ master_bytes
unfolding reduce
bare_reduced = refl

create_master_sound_example :
    MasterOf (reduce (of_bytes master_bytes)) (create_master (of_bytes master_bytes) cleared).0
create_master_sound_example = create_master_sound (of_bytes master_bytes) cleared bare_ok

create_master_complete_example :
    ((create_master (of_bytes master_bytes) cleared).0.master_state ≡ SequenceState.seq_ok)
    × ((create_master (of_bytes master_bytes) cleared).0.master ≡ of_bytes master_bytes)
create_master_complete_example =
    create_master_complete (of_bytes master_bytes) cleared master_bytes master_part
      (inl bare_reduced)

abbrev checked_slave : Sequence
unfolding crc
checked_slave = of_bytes (slave_bytes ++ crc (of_bytes slave_bytes) ∷ [])

slave_ok : (create_slave checked_slave cleared).0.slave_state ≡ SequenceState.seq_ok
unfolding create_slave crc ebus.Telegram.slave_error reduce ebus.Telegram.fill_slave
    ebus.Sequence.calculate_crc ebus.Sequence.crc_loop ebus.Sequence.assign_slice
    ebus.Sequence.slice_bytes ebus.Sequence.crc_byte needs_escape ebus.Crc.calc_crc
    ebus.Symbols.escape
slave_ok = refl

slave_reduced : (reduce checked_slave).sequence ≡ slave_bytes ++ crc (of_bytes slave_bytes) ∷ []
unfolding reduce crc
slave_reduced = refl

create_slave_sound_example : SlaveOf (reduce checked_slave) (create_slave checked_slave cleared).0
create_slave_sound_example = create_slave_sound checked_slave cleared slave_ok

create_master-frame_master_example :
    ((create_master (frame_master 0x10 payload) cleared).0.master_state ≡ SequenceState.seq_ok)
    × ((create_master (frame_master 0x10 payload) cleared).0.master ≡ of_bytes master_bytes)
    × (is_wire (frame_master 0x10 payload).sequence ≡ true)
create_master-frame_master_example = create_master-frame_master 0x10 payload cleared master_part

-- A master-slave telegram whose first answer is refused with a NAK and sent again.
abbrev exchange : Sequence
unfolding crc
exchange =
    let question = 0x10 ∷ 0x36 ∷ 0x07 ∷ 0x04 ∷ 0x00 ∷ [] in
    let answer = 0x01 ∷ 0x42 ∷ crc (of_bytes (0x01 ∷ 0x42 ∷ [])) ∷ [] in
    of_bytes (question ++ crc (of_bytes question) ∷ 0x00 ∷ (answer ++ 0xff ∷ (answer ++ 0x00 ∷ [])))
