-- ===== src/Handler.antt =====
-- src/ebus/core/handler.hpp and handler.cpp: the state of the protocol machine, its transitions, its
-- resets and what it calls. The handlers of the states are in the children. A call on the monitor, on
-- the bus or on a callback is an event of the record's log, oldest first; all of them are attached.
pub mod Matrix
pub mod Passive
pub mod Reactive
pub mod Active
pub mod Run
pub mod Successors
pub mod Answer
pub mod Conduct
pub mod Lockup
pub mod Alarms
pub mod Calm
use ebus.Base.{
  Bool, List, Option, [], false, get_or, if◌then◌else◌, leb, length, none, not, some, true, ℕ, ◌&&◌,
  ◌++◌, ◌+◌, ◌==◌, ◌∷◌,
}
use ebus.Symbols
use ebus.Types.{
  MessageType, HandlerState, LogLevel, ProtocolError, RequestResult, RequestState, SequenceState,
  TelegramType, is_broadcast, is_ok,
}
use ebus.Sequence.{Sequence, empty}
use ebus.Telegram.{Telegram, cleared, create_master_from}
use ebus.Request.{Request}
use ebus.Handler.Matrix.{index, is_valid_transition}
use ebus.Address.{is_master, slave_of}

pub data HandlerMetric : Type 0 where
  messages_passive messages_reactive messages_active : HandlerMetric
  error_passive error_reactive error_active total_attempts : HandlerMetric
  invalid_bytes total_observed_protocol_bytes : HandlerMetric

pub data Timer : Type 0 where
  sync active_first active_data passive_first passive_data write : Timer

pub data HandlerEvent : Type 0 where
  count : HandlerMetric → HandlerEvent
  total_observed_data_bytes record_handler_success record_handler_error : ℕ → HandlerEvent
  record_bus_error log_passive_reset log_active_reset won_callback lost_callback : HandlerEvent
  log_handler_transition : HandlerState → HandlerState → HandlerEvent
  mark_begin mark_end : Timer → HandlerEvent
  write_byte : ℕ → HandlerEvent
  reactive_callback : List ℕ → HandlerEvent
  on_telegram :
      MessageType → TelegramType → HandlerState → RequestState → List ℕ → List ℕ → HandlerEvent
  on_error :
      LogLevel
      → ProtocolError
      → RequestResult
      → SequenceState
      → HandlerState
      → RequestState
      → List ℕ
      → List ℕ
      → HandlerEvent

pub record Handler : Type 0 where
  pub request : Request
  pub last_result : RequestResult
  pub pending_write : Option ℕ
  pub source_address : ℕ
  pub target_address : ℕ
  pub measure_sync : Bool
  pub passive_telegram : Telegram
  pub passive_master : Sequence
  pub passive_master_dbx : ℕ
  pub passive_master_repeated : Bool
  pub passive_slave : Sequence
  pub passive_slave_dbx : ℕ
  pub passive_slave_index : ℕ
  pub passive_slave_repeated : Bool
  pub active_message : Bool
  pub active_telegram : Telegram
  pub active_master : Sequence
  pub active_master_index : ℕ
  pub active_master_repeated : Bool
  pub active_slave : Sequence
  pub active_slave_dbx : ℕ
  pub active_slave_repeated : Bool
  pub state : HandlerState
  pub events : List HandlerEvent

-- Statements in the order of the source.
infixl 2 ◌|>◌
abbrev pub ◌|>◌ : Handler → (Handler → Handler) → Handler
h |> f = f h

unfoldable pub log : HandlerEvent → Handler → Handler
log e h = record h { events = h.events ++ e ∷ [] }

abbrev pub update_handler : HandlerMetric → Handler → Handler
update_handler m = log (count m)

unfoldable pub call_on_error :
    LogLevel → ProtocolError → SequenceState → List ℕ → List ℕ → Handler → Handler
call_on_error level protocol_error sequence_state master_view slave_view h =
    h
    |> log record_bus_error
    |> log (record_handler_error (get_or master_view 0 0xff))
    |> log (
        on_error level protocol_error h.last_result sequence_state h.state h.request.state
          master_view slave_view)

unfoldable pub call_on_telegram : MessageType → TelegramType → List ℕ → List ℕ → Handler → Handler
call_on_telegram message_type telegram_type master_view slave_view h =
    let master_bytes = if leb 5 (length master_view) then 2 + get_or master_view 4 0 else 0 in
    let slave_bytes = if leb 1 (length slave_view) then get_or slave_view 0 0 else 0 in
    let h' = h |> log (total_observed_data_bytes (master_bytes + slave_bytes)) in
    let h'' =
      if not (is_broadcast telegram_type) && leb 2 (length master_view)
      then log (record_handler_success (get_or master_view 1 0)) h'
      else h' in
    h''
    |> log (on_telegram message_type telegram_type h.state h.request.state master_view slave_view)

-- An invalid transition reports an error and goes to the ground state.
unfoldable pub transition_to : HandlerState → Handler → Handler
transition_to next h =
    let valid = is_valid_transition h.state next in
    let reported =
      if valid
      then h
      else call_on_error LogLevel.error ProtocolError.illegal_fsm_transition SequenceState.seq_ok []
          [] h in
    let next' = if valid then next else HandlerState.passive_receive_master in
    if index next == index h.state
    then h
    else record reported { state = next' } |> log (log_handler_transition h.state next')

unfoldable pub call_passive_reset : Handler → Handler
call_passive_reset h = record h {
  passive_telegram = cleared;
  passive_master = empty;
  passive_master_dbx = 0;
  passive_master_repeated = false;
  passive_slave = empty;
  passive_slave_dbx = 0;
  passive_slave_index = 0;
  passive_slave_repeated = false;
}

unfoldable pub call_active_reset : Handler → Handler
call_active_reset h = record h {
  active_message = false;
  active_telegram = cleared;
  active_master = empty;
  active_master_index = 0;
  active_master_repeated = false;
  active_slave = empty;
  active_slave_dbx = 0;
  active_slave_repeated = false;
}

unfoldable pub call_write : ℕ → Handler → Handler
call_write byte h = record h { pending_write = some byte }

unfoldable pub reset : Handler → Handler
unfolding transition_to call_active_reset call_passive_reset
reset h =
    h
    |> transition_to HandlerState.passive_receive_master
    |> call_active_reset
    |> call_passive_reset

-- The default address of the configuration stands in for an address that is no master's.
unfoldable pub set_source_address : ℕ → Handler → Handler
set_source_address source h =
    let own = if is_master source then source else 0xff in
    record h { source_address = own; target_address = slave_of own }

-- The return value tells whether the message is now pending.
unfoldable pub send_active_message : List ℕ → Handler → Handler × Bool
unfolding create_master_from
send_active_message message h =
    let h' = record h {
      active_telegram = create_master_from h.source_address message h.active_telegram;
    } in
    if h.active_message
    then (h, false)
    else if length message == 0
    then (h, false)
    else if is_ok (h'.active_telegram).master_state
    then (record h' { active_message = true }, true)
    else (update_handler error_active h', false)

-- Called by the request machine when a bus request has been put on the wire.
unfoldable pub on_bus_requested : Handler → Handler
unfolding transition_to
on_bus_requested h =
    if h.active_message && not (index h.state == 8)
    then transition_to HandlerState.request_bus h
    else h

unfoldable pub on_start_bit : Handler → Handler
unfolding call_active_reset call_passive_reset
on_start_bit h = h |> call_active_reset |> call_passive_reset

-- `Handler(source_address, bus, request, monitor)`.
unfoldable pub initial : ℕ → Request → Handler
unfolding set_source_address
initial source request = set_source_address source (record {
  request = request;
  last_result = RequestResult.observe_syn;
  pending_write = none;
  source_address = 0;
  target_address = 0;
  measure_sync = false;
  passive_telegram = cleared;
  passive_master = empty;
  passive_master_dbx = 0;
  passive_master_repeated = false;
  passive_slave = empty;
  passive_slave_dbx = 0;
  passive_slave_index = 0;
  passive_slave_repeated = false;
  active_message = false;
  active_telegram = cleared;
  active_master = empty;
  active_master_index = 0;
  active_master_repeated = false;
  active_slave = empty;
  active_slave_dbx = 0;
  active_slave_repeated = false;
  state = HandlerState.passive_receive_master;
  events = [];
})
