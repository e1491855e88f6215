-- ===== src/BusHandler.antt =====
-- src/ebus/core/bus_handler.cpp: one event of the bus, through the request machine and the handler,
-- which share it. The request machine is the one in the handler's record. The callbacks to the client
-- manager and to the reactor get what `on_bus_event` returns beside the new state.
pub mod Event
use ebus.Base.{Bool, List, if◌then◌else◌, ℕ}
use ebus.Types.{HandlerState, RequestState, RequestResult}
use ebus.Sequence.{Sequence}
use ebus.Request
use ebus.Handler.{Handler, on_bus_requested, on_start_bit}
use ebus.Handler.Run
use ebus.Request.{Request}

pub record BusEvent : Type 0 where
  pub byte : ℕ
  pub bus_request : Bool
  pub start_bit : Bool

pub record BusEventInfo : Type 0 where
  pub byte : ℕ
  pub handler_state : HandlerState
  pub request_state : RequestState
  pub result : RequestResult
  pub lock_counter : ℕ

-- `busRequestCompleted` with its callback: an internal request moves the handler.
unfoldable pub complete_request : Handler → Handler
complete_request h =
    let h' = record h { request = Request.bus_request_completed h.request } in
    if (h'.request).external_bus_request then h' else on_bus_requested h'

-- `startBit` with its callback.
unfoldable pub handle_start_bit : Handler → Handler
handle_start_bit h = on_start_bit (record h { request = Request.start_bit h.request })

unfoldable pub before_run : BusEvent → Handler → Handler
unfolding complete_request handle_start_bit
before_run e h =
    let h' = if e.bus_request then complete_request h else h in
    if e.start_bit then handle_start_bit h' else h'

module _ (respond : List ℕ → Sequence → Sequence) where
  unfoldable pub on_bus_event : BusEvent → Handler → Handler × BusEventInfo
  unfolding before_run
  on_bus_event e h =
      let h' = before_run e h in
      let request = Request.run e.byte h'.request in
      let h'' = Run.run respond request.result e.byte (record h' { request = request }) in
      (
        h'',
        record {
          byte = e.byte;
          handler_state = h''.state;
          request_state = (h'.request).state;
          result = request.result;
          lock_counter = request.lock_counter;
        },
      )
