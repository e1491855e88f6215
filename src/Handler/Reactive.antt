-- ===== src/Handler/Reactive.antt =====
-- src/ebus/core/handler.cpp: the passive states behind the master part, and the reactive states that
-- answer a telegram for this device.
use ebus.Base.{if◌then◌else◌, leb, ltb, not, true, ℕ, ◌&&◌, ◌+◌, ◌==◌}
use ebus.Symbols
use ebus.Types.{
  SequenceState, HandlerState, MessageType, ProtocolError, TelegramType, is_master_master, is_ok,
}
use ebus.Sequence.{byte_at, empty, push_back, size}
use ebus.Telegram.{cleared, create_slave, max_data_bytes}
use ebus.Handler.{
  Handler, HandlerMetric, call_passive_reset, call_write, error_passive, error_reactive,
  messages_passive, messages_reactive, transition_to, update_handler, ◌|>◌,
}
use ebus.Handler.Passive.{report_passive, passive_telegram_of, reject_byte}

-- The end of a transfer that failed while others talked.
unfoldable pub abandon_passive : HandlerMetric → ProtocolError → SequenceState → Handler → Handler
abandon_passive metric e sequence_state h =
    h
    |> update_handler metric
    |> report_passive e sequence_state
    |> call_passive_reset
    |> transition_to HandlerState.passive_receive_master

-- The end of a transfer that succeeded.
unfoldable pub conclude_passive : HandlerMetric → MessageType → TelegramType → Handler → Handler
conclude_passive metric message_type telegram_type h =
    h
    |> passive_telegram_of message_type telegram_type
    |> update_handler metric
    |> call_passive_reset
    |> transition_to HandlerState.passive_receive_master

unfoldable pub passive_receive_master_acknowledge : ℕ → Handler → Handler
passive_receive_master_acknowledge byte h =
    let t = h.passive_telegram in
    if byte == Symbols.ack
    then (if is_master_master t.telegram_type
        then conclude_passive messages_passive MessageType.passive TelegramType.master_master h
        else transition_to HandlerState.passive_receive_slave h)
    else if not (byte == Symbols.syn) && not h.passive_master_repeated
    then record h {
      passive_master_repeated = true;
      passive_telegram = cleared;
      passive_master = empty;
      passive_master_dbx = 0;
    }
      |> transition_to HandlerState.passive_receive_master
    else abandon_passive error_passive ProtocolError.error_passive_master_ack t.master_state h

unfoldable pub store_slave_byte : ℕ → Handler → Handler
store_slave_byte byte h =
    let slave = push_back h.passive_slave byte true in
    let dbx = if size slave == 1 then byte else h.passive_slave_dbx in
    record h {
      passive_slave = slave;
      passive_slave_dbx = if byte == Symbols.ext then dbx + 1 else dbx;
    }

unfoldable pub complete_slave : Handler → Handler
complete_slave h =
    let (t, slave) = create_slave h.passive_slave h.passive_telegram in
    let h' = record h { passive_telegram = t; passive_slave = slave } in
    let h'' =
      if is_ok t.slave_state
      then h'
      else h'
        |> update_handler error_passive
        |> report_passive ProtocolError.error_passive_slave t.slave_state in
    transition_to HandlerState.passive_receive_slave_acknowledge h''

-- A refused data count resets the buffers; the state is kept.
unfoldable pub passive_receive_slave : ℕ → Handler → Handler
passive_receive_slave byte h =
    let h' = store_slave_byte byte h in
    if size h.passive_slave == 0 && ltb max_data_bytes byte
    then reject_byte h
    else if leb (1 + h'.passive_slave_dbx + 1) (size h'.passive_slave)
    then complete_slave h'
    else h'

unfoldable pub passive_receive_slave_acknowledge : ℕ → Handler → Handler
passive_receive_slave_acknowledge byte h =
    if byte == Symbols.ack
    then conclude_passive messages_passive MessageType.passive TelegramType.master_slave h
    else if byte == Symbols.nak && not h.passive_slave_repeated
    then record h { passive_slave_repeated = true; passive_slave = empty; passive_slave_dbx = 0 }
      |> transition_to HandlerState.passive_receive_slave
    else abandon_passive error_passive ProtocolError.error_passive_slave_ack
        (h.passive_telegram).slave_state h

unfoldable pub reactive_send_master_positive_acknowledge : ℕ → Handler → Handler
reactive_send_master_positive_acknowledge byte h =
    let t = h.passive_telegram in
    if is_master_master t.telegram_type
    then conclude_passive messages_reactive MessageType.reactive TelegramType.master_master h
    else if leb (size h.passive_slave) h.passive_slave_index
    then h
      |> report_passive ProtocolError.illegal_fsm_transition t.master_state
      |> call_passive_reset
      |> transition_to HandlerState.passive_receive_master
    else h
      |> call_write (byte_at h.passive_slave h.passive_slave_index)
      |> transition_to HandlerState.reactive_send_slave

unfoldable pub reactive_send_master_negative_acknowledge : ℕ → Handler → Handler
reactive_send_master_negative_acknowledge byte h =
    let h' = transition_to HandlerState.passive_receive_master h in
    if not h'.passive_master_repeated
    then record h' { passive_master_repeated = true }
    else h'
      |> update_handler error_reactive
      |> report_passive ProtocolError.error_reactive_master_ack (h'.passive_telegram).master_state
      |> call_passive_reset

unfoldable pub reactive_send_slave : ℕ → Handler → Handler
reactive_send_slave byte h =
    let h' = record h { passive_slave_index = h.passive_slave_index + 1 } in
    if leb (size h'.passive_slave) h'.passive_slave_index
    then transition_to HandlerState.reactive_receive_slave_acknowledge h'
    else call_write (byte_at h'.passive_slave h'.passive_slave_index) h'

unfoldable pub reactive_receive_slave_acknowledge : ℕ → Handler → Handler
reactive_receive_slave_acknowledge byte h =
    if byte == Symbols.ack
    then conclude_passive messages_reactive MessageType.reactive TelegramType.master_slave h
    else if byte == Symbols.nak && not h.passive_slave_repeated
    then record h { passive_slave_repeated = true; passive_slave_index = 0 }
      |> call_write (byte_at h.passive_slave 0)
      |> transition_to HandlerState.reactive_send_slave
    else abandon_passive error_reactive ProtocolError.error_reactive_slave_ack
        (h.passive_telegram).slave_state h
