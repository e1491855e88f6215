-- ===== src/BusHandler/Event.antt =====
-- One event of src/ebus/core/bus_handler.cpp: where it takes the protocol machine.
use ebus.Base.{List, arith, refl, true, ℕ, ◌≡◌, ◌⊎◌}
use ebus.Types.{HandlerState}
use ebus.Sequence.{Sequence}
use ebus.Request
use ebus.Handler.{
  Handler, call_active_reset, call_passive_reset, log, on_bus_requested, on_start_bit,
  transition_to,
}
use ebus.Handler.Matrix.{is_valid_transition}
use ebus.Handler.Successors.{follows}
use ebus.Handler.Conduct.{run-follows}
use ebus.BusHandler.{BusEvent, before_run, complete_request, handle_start_bit, on_bus_event}
use ebus.Request.{Request}

request_bus_valid : (s : HandlerState) → is_valid_transition s HandlerState.request_bus ≡ true
unfolding is_valid_transition ebus.Handler.Matrix.transition_masks
request_bus_valid HandlerState.passive_receive_master = refl
request_bus_valid HandlerState.passive_receive_master_acknowledge = refl
request_bus_valid HandlerState.passive_receive_slave = refl
request_bus_valid HandlerState.passive_receive_slave_acknowledge = refl
request_bus_valid HandlerState.reactive_send_master_positive_acknowledge = refl
request_bus_valid HandlerState.reactive_send_master_negative_acknowledge = refl
request_bus_valid HandlerState.reactive_send_slave = refl
request_bus_valid HandlerState.reactive_receive_slave_acknowledge = refl
request_bus_valid HandlerState.request_bus = refl
request_bus_valid HandlerState.active_send_master = refl
request_bus_valid HandlerState.active_receive_master_acknowledge = refl
request_bus_valid HandlerState.active_receive_slave = refl
request_bus_valid HandlerState.active_send_slave_positive_acknowledge = refl
request_bus_valid HandlerState.active_send_slave_negative_acknowledge = refl
request_bus_valid HandlerState.release_bus = refl

-- The same state, or the one that waits for the arbitration.
abbrev pub Asked : HandlerState → HandlerState → Type 0
Asked s t = (t ≡ s) ⊎ (t ≡ HandlerState.request_bus)

on_bus_requested-Asked : (h : Handler) → Asked h.state (on_bus_requested h).state
unfolding on_bus_requested transition_to log
on_bus_requested-Asked h = ground (arith, request_bus_valid h.state)

complete_request-Asked : (h : Handler) → Asked h.state (complete_request h).state
unfolding complete_request
complete_request-Asked h =
    let h' = record h { request = Request.bus_request_completed h.request } in
    ground (arith, on_bus_requested-Asked h')

before_run-Asked : (e : BusEvent) (h : Handler) → Asked h.state (before_run e h).state
unfolding before_run handle_start_bit on_start_bit call_active_reset call_passive_reset
before_run-Asked e h = ground (arith, complete_request-Asked h)

-- On every bus event the protocol machine, in its own state or moved by a completed request to the one
-- that waits for the arbitration, goes on to a successor state, and that state is reported.
pub on_bus_event-follows :
    (respond : List ℕ → Sequence → Sequence) (e : BusEvent) (h : Handler)
    → let t = (before_run e h).state in
      let (h', info) = on_bus_event respond e h in
      ((t ≡ h.state) ⊎ (t ≡ HandlerState.request_bus))
      × (follows t h'.state ≡ true)
      × (info.handler_state ≡ h'.state)
unfolding on_bus_event
on_bus_event-follows respond e h =
    let h' = before_run e h in
    let request = Request.run e.byte h'.request in
    (
      before_run-Asked e h,
      (run-follows respond request.result e.byte (record h' { request = request })).0,
      refl,
    )
