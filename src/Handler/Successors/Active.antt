-- ===== src/Handler/Successors/Active.antt =====
-- The successors of the states that send a message of this device (src/ebus/core/handler.cpp).
use ebus.Base.{[], arith, if◌then◌else◌, leb, ltb, refl, ℕ, ◌&&◌, ◌+◌, ◌==◌}
use ebus.Handler.Alarms.{alarms-append}
use ebus.Handler.Matrix.{is_valid_transition}
use ebus.Types.{HandlerState, RequestResult}
use ebus.Sequence.{size}
use ebus.Telegram.{max_data_bytes}
use ebus.Types.{LogLevel, ProtocolError, SequenceState}
use ebus.Handler.{
  invalid_bytes, update_handler, ◌|>◌, Handler, call_active_reset, call_on_error, call_on_telegram,
  call_passive_reset, call_write, log, transition_to,
}
use ebus.Handler.Active.{
  abort_active, active_send_master, conclude_active, release, active_receive_master_acknowledge,
  active_receive_slave, active_send_slave_negative_acknowledge,
  active_send_slave_positive_acknowledge, complete_active_slave, drop_message, refuse_slave,
  release_bus, request_bus_on, request_error, request_lost, request_won, store_active_byte,
}
use ebus.Handler.Successors.{Conduct, Conduct-if, at_state}

pub active_send_master-Conduct :
    (byte : ℕ) (h : Handler)
    → let s = HandlerState.active_send_master in
      Conduct s h (active_send_master byte (at_state s h))
unfolding active_send_master conclude_active abort_active release transition_to call_on_error
    call_on_telegram call_passive_reset call_active_reset call_write log is_valid_transition
active_send_master-Conduct byte h = record {
  follows_on = ground arith;
  stays_silent = λ e. ground arith;
  calm = grind (arith, alarms-append);
}

pub active_receive_master_acknowledge-Conduct :
    (byte : ℕ) (h : Handler)
    → let s = HandlerState.active_receive_master_acknowledge in
      Conduct s h (active_receive_master_acknowledge byte (at_state s h))
unfolding active_receive_master_acknowledge conclude_active release transition_to call_on_error
    call_on_telegram call_passive_reset call_active_reset call_write log is_valid_transition
active_receive_master_acknowledge-Conduct byte h = record {
  follows_on = ground arith;
  stays_silent = λ e. ground arith;
  calm = grind (arith, alarms-append);
}

complete_active_slave-Conduct :
    (h : Handler)
    → let s = HandlerState.active_receive_slave in
      Conduct s h (complete_active_slave (at_state s h))
unfolding complete_active_slave refuse_slave transition_to call_on_error call_write log
    is_valid_transition
complete_active_slave-Conduct h = record {
  follows_on = ground arith;
  stays_silent = λ e. ground arith;
  calm = grind (arith, alarms-append);
}

pub active_receive_slave-Conduct :
    (byte : ℕ) (h : Handler)
    → let s = HandlerState.active_receive_slave in
      Conduct s h (active_receive_slave byte (at_state s h))
unfolding active_receive_slave store_active_byte refuse_slave transition_to call_on_error call_write
    log is_valid_transition
active_receive_slave-Conduct byte h =
    let k = at_state HandlerState.active_receive_slave h in
    let k' = store_active_byte byte k in
    let whole = leb (1 + k'.active_slave_dbx + 1) (size k'.active_slave) in
    let done = complete_active_slave-Conduct (store_active_byte byte h) in
    let refused =
      k
      |> update_handler invalid_bytes
      |> call_on_error LogLevel.error ProtocolError.error_active_slave SequenceState.err_data_byte
          k.active_master.sequence []
      |> refuse_slave in
    Conduct-if (size k.active_slave == 0 && ltb max_data_bytes byte) refused
      (if whole then complete_active_slave k' else k')
      (record { follows_on = refl; stays_silent = λ e. cc; calm = grind (arith, alarms-append) })
      (Conduct-if whole (complete_active_slave k') k'
        (record { follows_on = done.follows_on; stays_silent = λ e. cc; calm = done.calm })
        (record { follows_on = refl; stays_silent = λ e. cc; calm = grind (arith, alarms-append) }))

pub active_send_slave_positive_acknowledge-Conduct :
    (byte : ℕ) (h : Handler)
    → let s = HandlerState.active_send_slave_positive_acknowledge in
      Conduct s h (active_send_slave_positive_acknowledge byte (at_state s h))
unfolding active_send_slave_positive_acknowledge release transition_to call_on_error
    call_on_telegram call_passive_reset call_active_reset call_write log is_valid_transition
active_send_slave_positive_acknowledge-Conduct byte h = record {
  follows_on = ground arith;
  stays_silent = λ e. ground arith;
  calm = grind (arith, alarms-append);
}

pub active_send_slave_negative_acknowledge-Conduct :
    (byte : ℕ) (h : Handler)
    → let s = HandlerState.active_send_slave_negative_acknowledge in
      Conduct s h (active_send_slave_negative_acknowledge byte (at_state s h))
unfolding active_send_slave_negative_acknowledge release transition_to call_on_error
    call_on_telegram call_passive_reset call_active_reset call_write log is_valid_transition
active_send_slave_negative_acknowledge-Conduct byte h = record {
  follows_on = ground arith;
  stays_silent = λ e. ground arith;
  calm = grind (arith, alarms-append);
}

pub release_bus-Conduct :
    (byte : ℕ) (h : Handler)
    → let s = HandlerState.release_bus in Conduct s h (release_bus byte (at_state s h))
unfolding release_bus transition_to call_on_error call_on_telegram call_passive_reset
    call_active_reset call_write log is_valid_transition
release_bus-Conduct byte h = record {
  follows_on = ground arith;
  stays_silent = λ e. ground arith;
  calm = grind (arith, alarms-append);
}

pub request_bus_on-Conduct :
    (r : RequestResult) (byte : ℕ) (h : Handler)
    → let s = HandlerState.request_bus in Conduct s h (request_bus_on r byte (at_state s h))
unfolding request_bus_on request_won request_lost request_error drop_message transition_to
    call_on_error call_on_telegram call_passive_reset call_active_reset call_write log
    is_valid_transition
request_bus_on-Conduct RequestResult.observe_syn byte h = record {
  follows_on = ground arith;
  stays_silent = λ e. ground arith;
  calm = grind (arith, alarms-append);
}
request_bus_on-Conduct _ byte h = record {
  follows_on = ground arith;
  stays_silent = λ e. ground arith;
  calm = grind (arith, alarms-append);
}
