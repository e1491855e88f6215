-- ===== src/Handler/Active.antt =====
-- src/ebus/core/handler.cpp: the states that send a message of this device, from the arbitration's
-- result to the release of the bus.
use ebus.Base.{[], false, if◌then◌else◌, leb, ltb, not, true, ℕ, ◌&&◌, ◌+◌, ◌==◌}
use ebus.Symbols
use ebus.Types.{
  SequenceState, HandlerState, LogLevel, MessageType, ProtocolError, RequestResult, TelegramType,
  is_broadcast, is_master_master, is_ok,
}
use ebus.Sequence.{byte_at, empty, extend, push_back, size}
use ebus.Telegram.{cleared, create_slave, max_data_bytes}
use ebus.Handler.{
  Handler, call_active_reset, call_on_error, call_on_telegram, call_write, error_active,
  invalid_bytes, log, lost_callback, messages_active, transition_to, update_handler, won_callback,
  ◌|>◌,
}

-- What the lambdas of `requestBus` share: the active message is dropped.
unfoldable pub drop_message : Handler → Handler
drop_message h = record h {
  active_message = false;
  active_telegram = cleared;
  active_master = empty;
}

unfoldable pub request_won : Handler → Handler
request_won h =
    let t = h.active_telegram in
    let h' = record h { active_master = extend (push_back t.master t.master_crc false) } in
    if ltb 1 (size h'.active_master)
    then record (log won_callback h') { active_master_index = 1 }
      |> call_write (byte_at h'.active_master 1)
      |> transition_to HandlerState.active_send_master
    else h'
      |> log lost_callback
      |> drop_message
      |> call_write Symbols.syn
      |> transition_to HandlerState.release_bus

-- The byte that won the arbitration is the first of another master's telegram.
unfoldable pub request_lost : ℕ → Handler → Handler
request_lost byte h =
    let h' = log lost_callback h in
    record h' { passive_master = push_back h'.passive_master byte true }
    |> drop_message
    |> transition_to HandlerState.passive_receive_master

unfoldable pub request_error : Handler → Handler
request_error h =
    h |> log lost_callback |> drop_message |> transition_to HandlerState.passive_receive_master

-- The switch over `last_result_`.
unfoldable pub request_bus_on : RequestResult → ℕ → Handler → Handler
request_bus_on RequestResult.observe_syn byte h = request_error h
request_bus_on RequestResult.observe_data byte h = request_error h
request_bus_on RequestResult.first_syn byte h = h
request_bus_on RequestResult.first_won byte h = request_won h
request_bus_on RequestResult.first_retry byte h = h
request_bus_on RequestResult.first_lost byte h = request_lost byte h
request_bus_on RequestResult.first_error byte h = request_lost byte h
request_bus_on RequestResult.retry_syn byte h = h
request_bus_on RequestResult.retry_error byte h = request_error h
request_bus_on RequestResult.second_won byte h = request_won h
request_bus_on RequestResult.second_lost byte h = request_lost byte h
request_bus_on RequestResult.second_error byte h = request_lost byte h

unfoldable pub request_bus : ℕ → Handler → Handler
unfolding request_bus_on
request_bus byte h = request_bus_on h.last_result byte h

abbrev pub report_active : ProtocolError → SequenceState → Handler → Handler
report_active e state h =
    call_on_error LogLevel.error e state h.active_master.sequence h.active_slave.sequence h

-- The transfer is over: free the bus by a SYN.
unfoldable pub release : Handler → Handler
release h =
    h |> call_active_reset |> call_write Symbols.syn |> transition_to HandlerState.release_bus

-- A transfer that succeeded with its master part.
unfoldable pub conclude_active : TelegramType → Handler → Handler
conclude_active telegram_type h =
    h
    |> call_on_telegram MessageType.active telegram_type h.active_master.sequence
        h.active_slave.sequence
    |> update_handler messages_active
    |> release

-- The bus did not carry what was sent, or there is nothing left to send: give up at once.
unfoldable pub abort_active : Handler → Handler
abort_active h = h |> call_active_reset |> transition_to HandlerState.passive_receive_master

unfoldable pub active_send_master : ℕ → Handler → Handler
active_send_master byte h =
    let state = (h.active_telegram).master_state in
    let h' = record h { active_master_index = h.active_master_index + 1 } in
    if leb (size h.active_master) h.active_master_index
    then h |> report_active ProtocolError.illegal_fsm_transition state |> abort_active
    else if not (byte == byte_at h.active_master h.active_master_index)
    then h
      |> update_handler error_active
      |> report_active ProtocolError.error_active_master_echo state
      |> abort_active
    else if leb (size h'.active_master) h'.active_master_index
    then (if is_broadcast (h'.active_telegram).telegram_type
        then conclude_active TelegramType.broadcast h'
        else transition_to HandlerState.active_receive_master_acknowledge h')
    else call_write (byte_at h'.active_master h'.active_master_index) h'

unfoldable pub active_receive_master_acknowledge : ℕ → Handler → Handler
active_receive_master_acknowledge byte h =
    let t = h.active_telegram in
    if byte == Symbols.ack
    then (if is_master_master t.telegram_type
        then conclude_active TelegramType.master_master h
        else transition_to HandlerState.active_receive_slave h)
    else if byte == Symbols.nak && not h.active_master_repeated
    then record h { active_master_repeated = true; active_master_index = 0 }
      |> call_write (byte_at h.active_master 0)
      |> transition_to HandlerState.active_send_master
    else h
      |> update_handler error_active
      |> report_active ProtocolError.error_active_master_ack t.master_state
      |> release

-- The slave's answer is refused: clear it and send a NAK.
unfoldable pub refuse_slave : Handler → Handler
refuse_slave h =
    record h { active_slave = empty; active_slave_dbx = 0 }
    |> call_write Symbols.nak
    |> transition_to HandlerState.active_send_slave_negative_acknowledge

unfoldable pub store_active_byte : ℕ → Handler → Handler
store_active_byte byte h =
    let slave = push_back h.active_slave byte true in
    let dbx = if size slave == 1 then byte else h.active_slave_dbx in
    record h {
      active_slave = slave;
      active_slave_dbx = if byte == Symbols.ext then dbx + 1 else dbx;
    }

unfoldable pub complete_active_slave : Handler → Handler
complete_active_slave h =
    let (t, slave) = create_slave h.active_slave h.active_telegram in
    let h' = record h { active_telegram = t; active_slave = slave } in
    if is_ok t.slave_state
    then h'
      |> call_write Symbols.ack
      |> transition_to HandlerState.active_send_slave_positive_acknowledge
    else h'
      |> update_handler error_active
      |> report_active ProtocolError.error_active_slave t.slave_state
      |> refuse_slave

unfoldable pub active_receive_slave : ℕ → Handler → Handler
active_receive_slave byte h =
    let h' = store_active_byte byte h in
    if size h.active_slave == 0 && ltb max_data_bytes byte
    then h
      |> update_handler invalid_bytes
      |> call_on_error LogLevel.error ProtocolError.error_active_slave SequenceState.err_data_byte
          h.active_master.sequence []
      |> refuse_slave
    else if leb (1 + h'.active_slave_dbx + 1) (size h'.active_slave)
    then complete_active_slave h'
    else h'

unfoldable pub active_send_slave_positive_acknowledge : ℕ → Handler → Handler
active_send_slave_positive_acknowledge byte h =
    let t = h.active_telegram in
    h
    |> call_on_telegram MessageType.active TelegramType.master_slave t.master.sequence
        t.slave.sequence
    |> update_handler messages_active
    |> release

unfoldable pub active_send_slave_negative_acknowledge : ℕ → Handler → Handler
active_send_slave_negative_acknowledge byte h =
    if not h.active_slave_repeated
    then record h { active_slave_repeated = true }
      |> transition_to HandlerState.active_receive_slave
    else h
      |> update_handler error_active
      |> report_active ProtocolError.error_active_slave_ack (h.active_telegram).slave_state
      |> release

-- Data before the next SYN is noise.
unfoldable pub release_bus : ℕ → Handler → Handler
release_bus byte h =
    (if byte == Symbols.syn then h else update_handler invalid_bytes h)
    |> transition_to HandlerState.passive_receive_master
