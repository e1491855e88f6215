-- ===== src/Handler/Passive.antt =====
-- src/ebus/core/handler.cpp: the states that watch the telegrams of others, and the first answer to a
-- telegram for this device. `respond` is the user's reactive callback: what it makes of the slave
-- response that it is handed, empty, with the master part.
use ebus.Base.{Bool, List, false, if◌then◌else◌, leb, ltb, not, true, ℕ, ◌+◌, ◌==◌, ◌||◌}
use ebus.Symbols
use ebus.Types.{
  SequenceState, HandlerState, LogLevel, MessageType, ProtocolError, TelegramType, is_broadcast,
  is_master_master, is_master_slave, is_ok,
}
use ebus.Sequence.{Sequence, byte_at, empty, extend, push_back, size}
use ebus.Telegram.{cleared, create_master, create_slave, max_data_bytes}
use ebus.Request
use ebus.Handler.{
  Handler, call_active_reset, call_on_error, call_on_telegram, call_passive_reset, call_write, log,
  transition_to, update_handler, ◌|>◌, error_passive, error_reactive, invalid_bytes,
  log_active_reset, log_passive_reset, messages_passive, reactive_callback,
}
use ebus.Request.{Request}
use ebus.Address.{is_master, is_target}

-- An implausible byte: count it and start over.
unfoldable pub reject_byte : Handler → Handler
reject_byte h = h |> update_handler invalid_bytes |> call_passive_reset

-- The header field that is due at this length refuses the byte.
unfoldable pub is_implausible : ℕ → ℕ → Bool
is_implausible current_len byte =
    if current_len == 0
    then not (is_master byte)
    else if current_len == 1
    then not (is_target byte)
    else if current_len == 2 || current_len == 3
    then byte == Symbols.syn || byte == Symbols.ext
    else if current_len == 4
    then ltb max_data_bytes byte
    else false

-- Append the byte; the length to wait for grows by one for each escape byte.
unfoldable pub store_master_byte : ℕ → Handler → Handler
store_master_byte byte h =
    let master = push_back h.passive_master byte true in
    let dbx = if size master == 5 then byte_at master 4 else h.passive_master_dbx in
    record h {
      passive_master = master;
      passive_master_dbx = if byte == Symbols.ext then dbx + 1 else dbx;
    }

abbrev pub report_passive : ProtocolError → SequenceState → Handler → Handler
report_passive e state h =
    call_on_error LogLevel.error e state h.passive_master.sequence h.passive_slave.sequence h

abbrev pub passive_telegram_of : MessageType → TelegramType → Handler → Handler
passive_telegram_of message_type telegram_type h =
    call_on_telegram message_type telegram_type (h.passive_telegram).master.sequence
      (h.passive_telegram).slave.sequence h

-- A broadcast is complete with its master part.
unfoldable pub accept_broadcast : Handler → Handler
accept_broadcast h =
    h
    |> passive_telegram_of MessageType.passive TelegramType.broadcast
    |> update_handler messages_passive
    |> call_passive_reset

-- A telegram for the own master address.
unfoldable pub accept_as_master : Handler → Handler
accept_as_master h =
    h
    |> call_write Symbols.ack
    |> transition_to HandlerState.reactive_send_master_positive_acknowledge

-- The slave response that the user's callback has set is framed and announced by an ACK.
unfoldable pub send_response : Handler → Handler
send_response h =
    let t = h.passive_telegram in
    record h { passive_slave = extend (push_back t.slave t.slave_crc false) }
    |> call_write Symbols.ack
    |> transition_to HandlerState.reactive_send_master_positive_acknowledge

unfoldable pub refuse_response : Handler → Handler
refuse_response h =
    h
    |> update_handler error_reactive
    |> report_passive ProtocolError.error_reactive_slave (h.passive_telegram).slave_state
    |> call_passive_reset
    |> call_write Symbols.syn
    |> transition_to HandlerState.release_bus

-- A damaged telegram for this device.
unfoldable pub refuse_as_target : Handler → Handler
refuse_as_target h =
    let h' =
      h
      |> update_handler error_reactive
      |> report_passive ProtocolError.error_reactive_master (h.passive_telegram).master_state in
    record h' { passive_telegram = cleared; passive_master = empty; passive_master_dbx = 0 }
    |> call_write Symbols.nak
    |> transition_to HandlerState.reactive_send_master_negative_acknowledge

unfoldable pub refuse_passive : Handler → Handler
refuse_passive h =
    h
    |> update_handler error_passive
    |> report_passive ProtocolError.error_passive_master (h.passive_telegram).master_state
    |> call_passive_reset

unfoldable pub check_passive_buffers : Handler → Handler
check_passive_buffers h =
    let t = h.passive_telegram in
    let sequence_state = if is_ok t.master_state then t.master_state else t.slave_state in
    if ltb 0 (size h.passive_master) || ltb 0 (size h.passive_slave)
    then h
      |> call_on_error LogLevel.info ProtocolError.check_passive_buffers sequence_state
          h.passive_master.sequence h.passive_slave.sequence
      |> log log_passive_reset
      |> call_passive_reset
    else h

unfoldable pub check_active_buffers : Handler → Handler
check_active_buffers h =
    let t = h.active_telegram in
    let sequence_state = if is_ok t.master_state then t.master_state else t.slave_state in
    if ltb 0 (size h.active_master) || ltb 0 (size h.active_slave)
    then h
      |> call_on_error LogLevel.info ProtocolError.check_active_buffers sequence_state
          h.active_master.sequence h.active_slave.sequence
      |> log log_active_reset
      |> call_active_reset
    else h

-- A SYN ends whatever was being read, and lets a waiting message ask for the bus.
unfoldable pub receive_syn : Handler → Handler
receive_syn h =
    let h' = h |> check_passive_buffers |> check_active_buffers in
    if h'.active_message
    then record h' { request = (Request.request_bus h'.source_address false h'.request).0 }
    else h'

-- What a damaged master part leads to.
unfoldable pub refuse_master : Handler → Handler
refuse_master h =
    let zz = byte_at h.passive_master 1 in
    let type = (h.passive_telegram).telegram_type in
    if zz == h.source_address || zz == h.target_address
    then refuse_as_target h
    else if is_master_master type || is_master_slave type
    then transition_to HandlerState.passive_receive_master_acknowledge h
    else refuse_passive h

module _ (respond : List ℕ → Sequence → Sequence) where
  -- A telegram for the own slave address.
  unfoldable pub accept_as_slave : Handler → Handler
  accept_as_slave h =
      let view = (h.passive_telegram).master.sequence in
      let (t, slave) = create_slave (respond view empty) h.passive_telegram in
      let h' =
        record h { passive_telegram = t; passive_slave = slave } |> log (reactive_callback view) in
      if is_ok t.slave_state then send_response h' else refuse_response h'

  -- What a correct master part leads to.
  unfoldable pub accept_master : Handler → Handler
  accept_master h =
      let zz = byte_at h.passive_master 1 in
      if is_broadcast (h.passive_telegram).telegram_type
      then accept_broadcast h
      else if zz == h.source_address
      then accept_as_master h
      else if zz == h.target_address
      then accept_as_slave h
      else transition_to HandlerState.passive_receive_master_acknowledge h

  -- The master part is complete: the buffer is checked and reduced in place.
  unfoldable pub complete_master : Handler → Handler
  complete_master h =
      let (t, master) = create_master h.passive_master h.passive_telegram in
      let h' = record h { passive_telegram = t; passive_master = master } in
      if is_ok t.master_state then accept_master h' else refuse_master h'

  unfoldable pub passive_receive_master : ℕ → Handler → Handler
  passive_receive_master byte h =
      let h' = store_master_byte byte h in
      if byte == Symbols.syn
      then receive_syn h
      else if is_implausible (size h.passive_master) byte
      then reject_byte h
      else if leb (5 + h'.passive_master_dbx + 1) (size h'.passive_master)
      then complete_master h'
      else h'
