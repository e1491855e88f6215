-- ===== src/ClientManager.antt =====
-- src/ebus/app/client_manager.hpp and client_manager.cpp: the clients and the session in which one of
-- them sends. A shared pointer is the number of a client in `objects`, and the slots hold such numbers.
-- A time is a number of milliseconds, `now` a reading of the clock. Bytes put on the bus and counts of
-- the monitor are events of the record's log, oldest first.
pub mod Io
pub mod Session
pub mod Calls
pub mod Kept
pub mod Rounds
use ebus.Base.{
  Bool, List, Option, [], false, get_or, if◌then◌else◌, ltb, none, not, replicate, set, some, true,
  ℕ, ◌%◌, ◌&&◌, ◌++◌, ◌+◌, ◌-◌, ◌==◌, ◌^◌, ◌∷◌, ◌||◌,
}
use ebus.Client
use ebus.Client.{Client, ClientType, create_client, enqueue_outgoing_data}
use ebus.Client.Bridge.{BridgeAction, on_bus_byte}
use ebus.Client.Inbound.{has_pending_incoming_data, on_session_start, pop_pending_incoming_data}
use ebus.Request
use ebus.Request.{Request, bus_available}
use ebus.Symbols
use ebus.Types.{RequestResult}

-- include/ebus/types.hpp
pub data SessionState : Type 0 where
  idle request response transmit : SessionState

pub data ManagerEvent : Type 0 where
  write_byte : ℕ → ManagerEvent
  bus_request_blocked session_timeouts : ManagerEvent

-- `last_error_message_`
pub data ErrorMessage : Type 0 where
  nothing no_data session_stopped session_timed_out client_disconnected : ErrorMessage

pub record ClientManager : Type 0 where
  pub running : Bool
  pub session_state : SessionState
  pub last_state_change : ℕ
  pub objects : List Client
  pub regular_clients : List (Option ℕ)
  pub readonly_clients : List (Option ℕ)
  pub enhanced_clients : List (Option ℕ)
  pub session_counter : ℕ
  pub current_active_sender : Option ℕ
  pub last_sent_byte : ℕ
  pub last_error : ErrorMessage
  pub session_timeout : ℕ
  pub transmit_timeout : ℕ
  pub outbound_buffer_size : ℕ
  pub request : Request
  pub events : List ManagerEvent

abbrev pub max_clients : ℕ
max_clients = 4

-- The manager behind `start`, with the default configuration.
abbrev pub initial : Request → ClientManager
initial r = record {
  running = true;
  session_state = SessionState.idle;
  last_state_change = 0;
  objects = [];
  regular_clients = replicate max_clients none;
  readonly_clients = replicate max_clients none;
  enhanced_clients = replicate max_clients none;
  session_counter = 0;
  current_active_sender = none;
  last_sent_byte = 0;
  last_error = ErrorMessage.nothing;
  session_timeout = 500;
  transmit_timeout = 250;
  outbound_buffer_size = 4096;
  request = r;
  events = [];
}

abbrev pub is_idle : SessionState → Bool
is_idle SessionState.idle = true
is_idle _ = false

abbrev pub is_request : SessionState → Bool
is_request SessionState.request = true
is_request _ = false

abbrev pub is_transmit : SessionState → Bool
is_transmit SessionState.transmit = true
is_transmit _ = false

-- A number that points to no client is not used.
abbrev pub object : ℕ → ClientManager → Client
object id m = get_or m.objects id (Client.stop (create_client ClientType.read_only 0))

abbrev pub set_object : ℕ → Client → ClientManager → ClientManager
set_object id c m = record m { objects = set m.objects id c }

unfoldable pub log : ManagerEvent → ClientManager → ClientManager
log e m = record m { events = m.events ++ e ∷ [] }

unfoldable pub transit_session_state : ℕ → SessionState → ClientManager → ClientManager
transit_session_state now state m = record m { session_state = state; last_state_change = now }

unfoldable pub stop_active_session : ClientManager → ClientManager
stop_active_session m = elim m.current_active_sender [
  | none ↦ m
  | some id ↦ record (set_object id (Client.stop (object id m)) m) {
    current_active_sender = none;
    session_state = SessionState.idle;
    last_error = ErrorMessage.session_stopped;
    request = Request.reset m.request;
  }
]

abbrev pub is_session_active : ClientManager → Bool
is_session_active m = not (is_idle m.session_state)

abbrev pub is_some : Option ℕ → Bool
is_some none = false
is_some (some id) = true

unfoldable pub on_bus_requested : ℕ → ClientManager → ClientManager
unfolding transit_session_state
on_bus_requested now m =
    if is_request m.session_state && is_some m.current_active_sender
    then transit_session_state now SessionState.response m
    else m

-- The active sender's first byte starts the arbitration.
unfoldable pub request_for : ℕ → ℕ → ClientManager → ClientManager
unfolding transit_session_state stop_active_session
request_for now id m =
    let (c, popped) = pop_pending_incoming_data (object id m) in
    elim popped [
      | none ↦ stop_active_session (record m { last_error = ErrorMessage.no_data })
      | some first_byte ↦
          transit_session_state now SessionState.response (record (set_object id c m) {
            request = (Request.request_bus first_byte true m.request).0;
            last_sent_byte = first_byte;
          })
    ]

unfoldable pub handle_bus_available_for_session : ℕ → ClientManager → ClientManager
unfolding request_for
handle_bus_available_for_session now m = elim m.current_active_sender [
  | none ↦ m
  | some id ↦
      if not (is_request m.session_state) || not (object id m).connected
      then m
      else if bus_available m.request
      then request_for now id m
      else m
]

unfoldable pub try_start_session_for_client : ℕ → ℕ → ClientManager → ClientManager
unfolding transit_session_state
try_start_session_for_client now id m =
    let c = object id m in
    if not c.connected || (not c.write_capable || not (has_pending_incoming_data c))
    then m
    else if is_some m.current_active_sender || not (is_idle m.session_state)
    then m
    else set_object id (on_session_start c) (
        transit_session_state now SessionState.request (record m {
          current_active_sender = some id;
          session_counter = (m.session_counter + 1) % 2 ^ 32;
        }))

-- A SYN ends the session.
unfoldable pub send_byte : ℕ → ℕ → ClientManager → ClientManager
unfolding log transit_session_state
send_byte now byte m =
    let m' = record (log (ManagerEvent.write_byte byte) m) { last_sent_byte = byte } in
    if byte == Symbols.syn
    then record (transit_session_state now SessionState.idle m') { current_active_sender = none }
    else transit_session_state now SessionState.response m'

unfoldable pub try_send_next_byte : ℕ → ℕ → ClientManager → ClientManager
unfolding send_byte
try_send_next_byte now id m =
    let (c, popped) = pop_pending_incoming_data (object id m) in
    if not (object id m).connected
    then m
    else elim popped [ none ↦ m | some byte ↦ send_byte now byte (set_object id c m) ]

unfoldable pub check_session_timeout : ℕ → ClientManager → ClientManager
unfolding log stop_active_session
check_session_timeout now m =
    let limit = if is_transmit m.session_state then m.transmit_timeout else m.session_timeout in
    if not (is_some m.current_active_sender)
    then m
    else if ltb limit (now - m.last_state_change)
    then log session_timeouts
        (stop_active_session (record m { last_error = ErrorMessage.session_timed_out }))
    else m

unfoldable pub handle_active_sender_disconnected : ClientManager → ClientManager
handle_active_sender_disconnected m = elim m.current_active_sender [
  | none ↦ m
  | some id ↦
      if (object id m).connected then m else record (set_object id (Client.stop (object id m)) m) {
        current_active_sender = none;
        session_state = SessionState.idle;
        last_error = ErrorMessage.client_disconnected;
        request = Request.reset m.request;
      }
]
