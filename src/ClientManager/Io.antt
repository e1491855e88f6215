-- ===== src/ClientManager/Io.antt =====
-- src/ebus/app/client_manager.cpp: bytes of the bus to the clients, the clients' slots, and what a client's
-- socket receives. A socket's descriptor belongs to its client alone.
use ebus.Base.{
  Bool, List, Option, [], false, if◌then◌else◌, length, none, not, some, true, ℕ, ◌&&◌, ◌++◌, ◌==◌,
  ◌∷◌, ◌||◌,
}
use ebus.Client
use ebus.Client.{
  Client, ClientType, WriteAnswer, create_client, enqueue_outgoing_data, flush_outgoing_data,
}
use ebus.Client.Bridge.{BridgeAction, on_bus_byte}
use ebus.Client.Inbound.{handle_incoming_stream}
use ebus.ClientManager.{
  ClientManager, ManagerEvent, SessionState, check_session_timeout,
  handle_active_sender_disconnected, handle_bus_available_for_session, is_idle, is_transmit, log,
  object, set_object, stop_active_session, transit_session_state, try_send_next_byte,
  try_start_session_for_client,
}
use ebus.Types.{RequestResult}

-- What the active sender's client has answered to a byte of the bus.
unfoldable pub act : ℕ → ℕ → BridgeAction → ClientManager → ClientManager
unfolding log stop_active_session transit_session_state try_send_next_byte
act now id BridgeAction.keep_active m = m
act now id BridgeAction.stop_session m =
    stop_active_session (log ManagerEvent.bus_request_blocked m)
act now id BridgeAction.bypass_wait m =
    try_send_next_byte now id (transit_session_state now SessionState.transmit m)

-- The branch of `onBusEventInfo` for an active sender.
unfoldable pub serve_sender : ℕ → RequestResult → ℕ → ℕ → ClientManager → ClientManager
unfolding act handle_bus_available_for_session
serve_sender now result byte id m =
    let (c, action) = on_bus_byte result byte (object id m) in
    if not (object id m).connected
    then m
    else handle_bus_available_for_session now (act now id action (set_object id c m))

abbrev pub is_same : Option ℕ → ℕ → Bool
is_same none id = false
is_same (some i) id = i == id

-- The byte to the connected clients of a list of slots, but for the sender.
unfoldable pub forward : Option ℕ → ℕ → List (Option ℕ) → ClientManager → ClientManager
forward sender byte [] m = m
forward sender byte (none ∷ slots) m = forward sender byte slots m
forward sender byte (some id ∷ slots) m = forward sender byte slots (
    if is_same sender id || not (object id m).connected
    then m
    else set_object id (enqueue_outgoing_data (byte ∷ []) (object id m)) m)

unfoldable pub all_clients : ClientManager → List (Option ℕ)
all_clients m = m.regular_clients ++ (m.readonly_clients ++ m.enhanced_clients)

-- A session that is under way is seen to be alive.
abbrev pub touch : ℕ → ClientManager → ClientManager
touch now m = if is_idle m.session_state then m else record m { last_state_change = now }

unfoldable pub on_bus_event_info : ℕ → RequestResult → ℕ → ClientManager → ClientManager
unfolding serve_sender forward all_clients
on_bus_event_info now result byte m =
    let sender = m.current_active_sender in
    let touched = touch now m in
    let served : ClientManager = elim sender [
      | none ↦ touched
      | some id ↦ serve_sender now result byte id touched
    ] in
    if not m.running then m else forward sender byte (all_clients m) served

-- A slot whose client is no longer connected is free.
unfoldable pub evict : List (Option ℕ) → ClientManager → List (Option ℕ)
evict [] m = []
evict (none ∷ slots) m = none ∷ evict slots m
evict (some id ∷ slots) m = (if (object id m).connected then some id else none) ∷ evict slots m

-- The first free slot is taken; without one the result is false.
unfoldable pub place : ℕ → List (Option ℕ) → List (Option ℕ) × Bool
place id [] = ([], false)
place id (none ∷ slots) = (some id ∷ slots, true)
place id (some i ∷ slots) = let (slots', placed) = place id slots in (some i ∷ slots', placed)

unfoldable pub put_slots : ClientType → List (Option ℕ) → ClientManager → ClientManager
put_slots ClientType.regular slots m = record m { regular_clients = slots }
put_slots ClientType.read_only slots m = record m { readonly_clients = slots }
put_slots ClientType.enhanced slots m = record m { enhanced_clients = slots }

abbrev pub slots_of : ClientType → ClientManager → List (Option ℕ)
slots_of ClientType.regular m = m.regular_clients
slots_of ClientType.read_only m = m.readonly_clients
slots_of ClientType.enhanced m = m.enhanced_clients

-- `addClient` with a valid socket; a client without a slot is closed.
unfoldable pub add_client : ClientType → ClientManager → ClientManager × Bool
unfolding evict place put_slots
add_client kind m =
    let id = length m.objects in
    let client = create_client kind m.outbound_buffer_size in
    let (slots, placed) = place id (evict (slots_of kind m) m) in
    let kept = if placed then client else Client.stop client in
    (put_slots kind slots (record m { objects = m.objects ++ kept ∷ [] }), placed)

unfoldable pub remove_disconnected_clients : ClientManager → ClientManager
unfolding evict
remove_disconnected_clients m = record m {
  regular_clients = evict m.regular_clients m;
  readonly_clients = evict m.readonly_clients m;
  enhanced_clients = evict m.enhanced_clients m;
}

unfoldable pub remove_slot : ℕ → List (Option ℕ) → List (Option ℕ)
remove_slot id [] = []
remove_slot id (s ∷ slots) = if is_same s id then none ∷ slots else s ∷ remove_slot id slots

-- The client goes out of its slot and is closed: `removeClientByFd`, and what a closed or a broken
-- connection leads to.
unfoldable pub remove_client : ℕ → ClientManager → ClientManager
unfolding remove_slot
remove_client id m = record (set_object id (Client.stop (object id m)) m) {
  regular_clients = remove_slot id m.regular_clients;
  readonly_clients = remove_slot id m.readonly_clients;
  enhanced_clients = remove_slot id m.enhanced_clients;
}

-- What `recv` answers.
pub data ReceiveAnswer : Type 0 where
  received : List ℕ → ReceiveAnswer
  closed would_block failed : ReceiveAnswer

-- What follows bytes that the client has taken.
unfoldable pub after_input : ℕ → ℕ → ClientManager → ClientManager
unfolding try_send_next_byte try_start_session_for_client
after_input now id m =
    if is_same m.current_active_sender id && is_transmit m.session_state
    then try_send_next_byte now id m
    else try_start_session_for_client now id m

-- The loop over the socket's answers; `none` is a call that has to wait on a full queue.
unfoldable pub handle_socket_input :
    ℕ → ℕ → List ReceiveAnswer → ClientManager → Option ClientManager
unfolding after_input remove_client
handle_socket_input now id [] m = some m
handle_socket_input now id (ReceiveAnswer.would_block ∷ answers) m = some m
handle_socket_input now id (ReceiveAnswer.closed ∷ answers) m = some (remove_client id m)
handle_socket_input now id (ReceiveAnswer.failed ∷ answers) m = some (remove_client id m)
handle_socket_input now id (ReceiveAnswer.received bytes ∷ answers) m =
    elim (handle_incoming_stream bytes (object id m) m.request) [
      | none ↦ none
      | some (c, r) ↦
          handle_socket_input now id answers
            (after_input now id (record (set_object id c m) { request = r }))
    ]

unfoldable pub handle_socket_output : ℕ → List WriteAnswer → ClientManager → ClientManager
unfolding remove_client
handle_socket_output id answers m =
    let (c, alive, sent) = flush_outgoing_data answers (object id m) in
    let m' = set_object id c m in if alive then m' else remove_client id m'

-- A round of `clientIoLoop` in which no socket is ready.
unfoldable pub idle_round : ℕ → ClientManager → ClientManager
unfolding remove_disconnected_clients
idle_round now m =
    handle_bus_available_for_session now (
      remove_disconnected_clients (handle_active_sender_disconnected (check_session_timeout now m)))
