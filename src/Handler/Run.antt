-- ===== src/Handler/Run.antt =====
-- `Handler::run` of src/ebus/core/handler.cpp: one byte from the bus, through the state's handler, to
-- the byte that is written back.
use ebus.Base.{List, Option, false, if◌then◌else◌, none, not, some, true, ℕ, ◌==◌}
use ebus.Symbols
use ebus.Types.{HandlerState, RequestResult}
use ebus.Sequence.{Sequence}
use ebus.Handler.{
  Handler, active_data, active_first, log, mark_begin, mark_end, passive_data, passive_first, sync,
  total_observed_protocol_bytes, update_handler, write, write_byte, ◌|>◌,
}
use ebus.Handler.Passive.{passive_receive_master}
use ebus.Handler.Reactive.{
  passive_receive_slave, passive_receive_master_acknowledge, passive_receive_slave_acknowledge,
  reactive_receive_slave_acknowledge, reactive_send_master_negative_acknowledge,
  reactive_send_master_positive_acknowledge, reactive_send_slave,
}
use ebus.Handler.Active.{
  release_bus, active_receive_master_acknowledge, active_receive_slave, active_send_master,
  active_send_slave_negative_acknowledge, active_send_slave_positive_acknowledge, request_bus,
}

-- The intervals that the byte ends.
unfoldable pub mark_ends : ℕ → Handler → Handler
mark_ends byte h =
    if not (byte == Symbols.syn)
    then record (log
        (mark_end (
          if h.active_message
          then (if h.measure_sync then active_first else active_data)
          else (if h.measure_sync then passive_first else passive_data)))
        h) { measure_sync = false }
    else record (if h.measure_sync then log (mark_end sync) h else h) { measure_sync = true }

-- The intervals that the byte begins.
unfoldable pub mark_begins : Handler → Handler
mark_begins h =
    if h.measure_sync
    then h
      |> log (mark_begin sync)
      |> log (mark_begin active_first)
      |> log (mark_begin passive_first)
    else h |> log (mark_begin active_data) |> log (mark_begin passive_data)

-- The telemetry in front of the state's handler; a byte still to be written is forgotten.
unfoldable pub begin_run : RequestResult → ℕ → Handler → Handler
begin_run result byte h =
    let h' =
      record h { last_result = result }
      |> mark_ends byte
      |> update_handler total_observed_protocol_bytes
      |> mark_begins in
    record h' { pending_write = none }

-- The write that the state's handler asked for.
unfoldable pub end_run : Option ℕ → Handler → Handler
end_run none h = h
end_run (some byte) h = h |> log (mark_begin write) |> log (write_byte byte) |> log (mark_end write)

module _ (respond : List ℕ → Sequence → Sequence) where
  -- The dispatch through `state_handlers`.
  unfoldable pub run_in : HandlerState → ℕ → Handler → Handler
  run_in HandlerState.passive_receive_master byte h = passive_receive_master respond byte h
  run_in HandlerState.passive_receive_master_acknowledge byte h =
      passive_receive_master_acknowledge byte h
  run_in HandlerState.passive_receive_slave byte h = passive_receive_slave byte h
  run_in HandlerState.passive_receive_slave_acknowledge byte h =
      passive_receive_slave_acknowledge byte h
  run_in HandlerState.reactive_send_master_positive_acknowledge byte h =
      reactive_send_master_positive_acknowledge byte h
  run_in HandlerState.reactive_send_master_negative_acknowledge byte h =
      reactive_send_master_negative_acknowledge byte h
  run_in HandlerState.reactive_send_slave byte h = reactive_send_slave byte h
  run_in HandlerState.reactive_receive_slave_acknowledge byte h =
      reactive_receive_slave_acknowledge byte h
  run_in HandlerState.request_bus byte h = request_bus byte h
  run_in HandlerState.active_send_master byte h = active_send_master byte h
  run_in HandlerState.active_receive_master_acknowledge byte h =
      active_receive_master_acknowledge byte h
  run_in HandlerState.active_receive_slave byte h = active_receive_slave byte h
  run_in HandlerState.active_send_slave_positive_acknowledge byte h =
      active_send_slave_positive_acknowledge byte h
  run_in HandlerState.active_send_slave_negative_acknowledge byte h =
      active_send_slave_negative_acknowledge byte h
  run_in HandlerState.release_bus byte h = release_bus byte h

  -- The state's handler, between the telemetry and the write.
  unfoldable pub run_state : RequestResult → ℕ → Handler → Handler
  run_state result byte h = let h' = begin_run result byte h in run_in h'.state byte h'

  unfoldable pub run : RequestResult → ℕ → Handler → Handler
  run result byte h = let h' = run_state result byte h in end_run h'.pending_write h'
