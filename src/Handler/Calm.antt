-- ===== src/Handler/Calm.antt =====
-- The state of src/ebus/core/handler.cpp that receives a master part writes no byte itself and goes to no illegal
-- state.
use ebus.Base.{Bool-cases, List, arith, inl, inr, ℕ, ◌≡◌}
use ebus.Handler.Alarms.{alarms, alarms-append}
use ebus.Handler.Matrix.{is_valid_transition}
use ebus.Handler.Passive.{
  accept_as_master, accept_as_slave, accept_broadcast, accept_master, check_active_buffers,
  check_passive_buffers, complete_master, passive_receive_master, receive_syn, refuse_as_target,
  refuse_master, refuse_passive, refuse_response, reject_byte, send_response, store_master_byte,
}
use ebus.Handler.{
  Handler, call_active_reset, call_on_error, call_on_telegram, call_passive_reset, call_write, log,
  transition_to,
}
use ebus.Handler.Successors.{at_state}
use ebus.Sequence.{Sequence, reduce}
use ebus.Telegram.{create_master, create_master_reduced}
use ebus.Types.{HandlerState, is_ok}

abbrev prm : HandlerState
prm = HandlerState.passive_receive_master

refuse_master-alarms :
    (h : Handler) → alarms (refuse_master (at_state prm h)).events ≡ alarms h.events
unfolding refuse_master refuse_as_target refuse_passive transition_to call_on_error call_on_telegram
    call_passive_reset call_active_reset call_write log is_valid_transition
refuse_master-alarms h = grind (arith, alarms-append)

receive_syn-alarms : (h : Handler) → alarms (receive_syn (at_state prm h)).events ≡ alarms h.events
unfolding receive_syn check_passive_buffers check_active_buffers transition_to call_on_error
    call_on_telegram call_passive_reset call_active_reset call_write log is_valid_transition
receive_syn-alarms h = grind (arith, alarms-append)

module _ (respond : List ℕ → Sequence → Sequence) where
  accept_as_slave-alarms :
      (h : Handler) → alarms (accept_as_slave respond (at_state prm h)).events ≡ alarms h.events
  unfolding accept_as_slave send_response refuse_response transition_to call_on_error
      call_on_telegram call_passive_reset call_active_reset call_write log is_valid_transition
  accept_as_slave-alarms h = grind (arith, alarms-append)

  accept_master-alarms :
      (h : Handler) → alarms (accept_master respond (at_state prm h)).events ≡ alarms h.events
  unfolding accept_master accept_broadcast accept_as_master transition_to call_on_error
      call_on_telegram call_passive_reset call_active_reset call_write log is_valid_transition
  accept_master-alarms h = grind (arith, alarms-append, accept_as_slave-alarms h)

  complete_master-alarms :
      (h : Handler) → alarms (complete_master respond (at_state prm h)).events ≡ alarms h.events
  unfolding complete_master create_master
  complete_master-alarms h =
      let t = create_master_reduced (reduce h.passive_master) h.passive_telegram in
      let h' = record h { passive_telegram = t; passive_master = reduce h.passive_master } in
      elim (Bool-cases (is_ok t.master_state)) [
        | inl e ↦ rw e (accept_master-alarms h')
        | inr e ↦ rw e (refuse_master-alarms h')
      ]

  pub passive_receive_master-alarms :
      (byte : ℕ) (h : Handler)
      → alarms (passive_receive_master respond byte (at_state prm h)).events ≡ alarms h.events
  unfolding passive_receive_master reject_byte call_passive_reset log store_master_byte
  passive_receive_master-alarms byte h = grind (
    arith,
    alarms-append,
    receive_syn-alarms h,
    complete_master-alarms (store_master_byte byte h),
  )
