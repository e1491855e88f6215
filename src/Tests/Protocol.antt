-- ===== src/Tests/Protocol.antt =====
-- src/ebus/core/handler.cpp on concrete bytes: a device with the addresses 0x31 and 0x36, which
-- answers every telegram with one data byte.
use ebus.Base.{List, [], refl, true, ℕ, ◌∷◌, ◌≡◌}
use ebus.Types.{HandlerState, RequestResult}
use ebus.Sequence.{Sequence, byte_at, push_back, reduce, crc}
use ebus.Telegram.{of_bytes}
use ebus.Request
use ebus.Handler.{Handler, initial}
use ebus.Handler.Answer.{Answer, passive_receive_master-Answer}
use ebus.Handler.Alarms.{alarms}
use ebus.Handler.Conduct.{run_silent}
use ebus.Handler.Passive.{passive_receive_master}
use ebus.Handler.Run.{run, run_state}
use ebus.Request.{Request}

abbrev answer : List ℕ → Sequence → Sequence
answer master_view response = of_bytes (0x01 ∷ 0x42 ∷ [])

abbrev idle : Handler
unfolding initial
idle = initial 0x31 Request.initial

abbrev feed : List ℕ → Handler → Handler
feed [] h = h
feed (b ∷ bs) h = feed bs (run answer RequestResult.observe_data b h)

-- A master-slave telegram from 0x10 to this device, up to its last byte, the CRC 0x25.
abbrev asking : List ℕ
asking = 0x10 ∷ 0x36 ∷ 0x07 ∷ 0x04 ∷ 0x00 ∷ []

abbrev asking_crc : ℕ
unfolding crc
asking_crc = crc (of_bytes asking)

abbrev asked : Handler
asked = feed asking idle

asked_waits : asked.state ≡ HandlerState.passive_receive_master
unfolding run initial ebus.Handler.Run.end_run run_state ebus.Handler.Run.run_in
    ebus.Handler.Run.begin_run ebus.Handler.Run.mark_begins ebus.Handler.log
    ebus.Handler.Run.mark_ends passive_receive_master ebus.Handler.Passive.is_implausible
    ebus.Address.is_master ebus.Handler.Passive.store_master_byte push_back ebus.Address.is_target
asked_waits = refl

passive_receive_master-Answer_example :
    Answer
      (byte_at (reduce (push_back asked.passive_master asking_crc true)) 1)
      asked
      (passive_receive_master answer asking_crc asked)
passive_receive_master-Answer_example =
    passive_receive_master-Answer answer asking_crc asked asked_waits

abbrev waiting : Handler
unfolding initial
waiting = record (initial 0x31 Request.initial) { state = HandlerState.passive_receive_slave }

run_silent_example :
    (run answer RequestResult.observe_data 0x01 waiting
      ≡ run_state answer RequestResult.observe_data 0x01 waiting)
    × (alarms (run answer RequestResult.observe_data 0x01 waiting).events ≡ alarms waiting.events)
unfolding waiting
run_silent_example = run_silent answer RequestResult.observe_data 0x01 waiting refl

-- The same bytes, received, at the last one.
abbrev received : Handler
unfolding initial
received = record (initial 0x31 Request.initial) {
  passive_master = record { sequence = asking; extended = true };
}

received_acknowledges :
    (run answer RequestResult.observe_data asking_crc received).state
    ≡ HandlerState.reactive_send_master_positive_acknowledge
unfolding run received asking_crc crc ebus.Handler.Run.end_run run_state ebus.Handler.Run.run_in
    ebus.Handler.Run.begin_run ebus.Handler.Run.mark_begins ebus.Handler.log
    ebus.Handler.Run.mark_ends passive_receive_master ebus.Handler.Passive.is_implausible
    ebus.Address.is_master ebus.Handler.Passive.store_master_byte push_back ebus.Address.is_target
    ebus.Handler.Passive.complete_master ebus.Handler.Passive.accept_master
    ebus.Handler.Passive.accept_as_slave ebus.Handler.Passive.send_response reduce
    ebus.Telegram.create_master ebus.Telegram.create_slave ebus.Telegram.create_master_reduced
    ebus.Telegram.create_slave_reduced ebus.Telegram.master_error ebus.Telegram.slave_error
    ebus.Telegram.fill_master ebus.Telegram.fill_slave ebus.Handler.transition_to
    ebus.Handler.Matrix.is_valid_transition ebus.Handler.Matrix.transition_masks
    ebus.Handler.call_write ebus.Sequence.calculate_crc ebus.Sequence.crc_loop
    ebus.Sequence.crc_byte ebus.Symbols.needs_escape ebus.Crc.calc_crc
    ebus.Handler.set_source_address ebus.Address.slave_of ebus.Sequence.needs_reduction
    ebus.Sequence.assign_slice ebus.Sequence.slice_bytes ebus.Address.type_of
received_acknowledges = refl

abbrev noise : List (RequestResult × ℕ)
noise =
    (RequestResult.observe_syn, 0xaa)
    ∷ (RequestResult.observe_data, 0x31)
    ∷ (RequestResult.observe_syn, 0xaa)
    ∷ []
