-- ===== src/ClientManager/Kept.antt =====
-- src/ebus/app/client_manager.cpp: the session over any sequence of calls.
use ebus.Base.{List, Option, [], arith, false, none, some, ℕ, ◌∷◌}
use ebus.Client.{WriteAnswer}
use ebus.Request.{Request}
use ebus.Client.Inbound.{handle_incoming_stream}
use ebus.ClientManager.Calls.{
  Call, run, step, set_session_timeout, set_transmit_timeout, set_outgoing_buffer_size, stop,
}
use ebus.ClientManager.Io.{
  ReceiveAnswer, add_client, after_input, handle_socket_input, handle_socket_output, idle_round,
  put_slots, remove_client, remove_disconnected_clients,
}
use ebus.ClientManager.{
  ClientManager, check_session_timeout, handle_active_sender_disconnected, log, object, send_byte,
  set_object, transit_session_state, try_send_next_byte, try_start_session_for_client,
}
use ebus.Client.{Client, ClientType}
use ebus.ClientManager.Session.{
  IsSession, stop_active_session-IsSession, handle_bus_available-IsSession,
  check_session_timeout-IsSession, handle_disconnected-IsSession, on_bus_requested-IsSession,
  on_bus_event_info-IsSession,
}

remove_client-IsSession :
    (id : ℕ) (m : ClientManager) → IsSession m → IsSession (remove_client id m)
unfolding remove_client IsSession
remove_client-IsSession id m v = v

add_client-IsSession :
    (kind : ClientType) (m : ClientManager) → IsSession m → IsSession (add_client kind m).0
unfolding add_client put_slots IsSession
add_client-IsSession ClientType.regular m v = v
add_client-IsSession ClientType.read_only m v = v
add_client-IsSession ClientType.enhanced m v = v

handle_socket_output-IsSession :
    (id : ℕ) (answers : List WriteAnswer) (m : ClientManager)
    → IsSession m
    → IsSession (handle_socket_output id answers m)
unfolding handle_socket_output remove_client IsSession
handle_socket_output-IsSession id answers m v = ground arith

after_input-IsSession :
    (now id : ℕ) (m : ClientManager) → IsSession m → IsSession (after_input now id m)
unfolding after_input IsSession try_send_next_byte send_byte log transit_session_state
    try_start_session_for_client
after_input-IsSession now id m v = ground arith

idle_round-IsSession : (now : ℕ) (m : ClientManager) → IsSession m → IsSession (idle_round now m)
unfolding idle_round remove_disconnected_clients handle_active_sender_disconnected
    check_session_timeout IsSession
idle_round-IsSession now m v =
    let checked = check_session_timeout now m in
    let handled = handle_active_sender_disconnected checked in
    let v' = handle_disconnected-IsSession checked (check_session_timeout-IsSession now m v) in
    handle_bus_available-IsSession now (remove_disconnected_clients handled) v'

-- What a call keeps, when it returns.
Kept : Option ClientManager → Type 0
Kept none = Unit
Kept (some m) = IsSession m

-- Bytes the client has taken are followed by the answers behind them.
taken-Kept :
    (now id : ℕ) (answers : List ReceiveAnswer) (m : ClientManager)
    (taken : Option (Client × Request))
    → IsSession m
    → ((m' : ClientManager) → IsSession m' → Kept (handle_socket_input now id answers m'))
    → Kept (elim taken as (λ _. Option ClientManager) [
      | none ↦ none
      | some (c, r) ↦
          handle_socket_input now id answers
            (after_input now id (record (set_object id c m) { request = r }))
    ])
unfolding Kept IsSession
taken-Kept now id answers m none v later = tt
taken-Kept now id answers m (some (c, r)) v later =
    let m' = record (set_object id c m) { request = r } in
    later (after_input now id m') (after_input-IsSession now id m' v)

input-IsSession :
    (now id : ℕ) (answers : List ReceiveAnswer) (m : ClientManager)
    → IsSession m
    → Kept (handle_socket_input now id answers m)
unfolding handle_socket_input Kept
input-IsSession now id [] m v = v
input-IsSession now id (ReceiveAnswer.would_block ∷ answers) m v = v
input-IsSession now id (ReceiveAnswer.closed ∷ answers) m v = remove_client-IsSession id m v
input-IsSession now id (ReceiveAnswer.failed ∷ answers) m v = remove_client-IsSession id m v
input-IsSession now id (ReceiveAnswer.received bytes ∷ answers) m v =
    taken-Kept now id answers m (handle_incoming_stream bytes (object id m) m.request) v
      (λ m' v'. input-IsSession now id answers m' v')

step-Kept : (call : Call) (m : ClientManager) → IsSession m → Kept (step call m)
unfolding step Kept IsSession set_session_timeout set_transmit_timeout set_outgoing_buffer_size stop
step-Kept (Call.bus_requested now) m v = on_bus_requested-IsSession now m v
step-Kept (Call.bus_event now result byte) m v = on_bus_event_info-IsSession now result byte m v
step-Kept (Call.add kind) m v = add_client-IsSession kind m v
step-Kept (Call.remove id) m v = remove_client-IsSession id m v
step-Kept (Call.input now id answers) m v = input-IsSession now id answers m v
step-Kept (Call.output id answers) m v = handle_socket_output-IsSession id answers m v
step-Kept (Call.round now) m v = idle_round-IsSession now m v
step-Kept (Call.session_timeout_is timeout_ms) m v = v
step-Kept (Call.transmit_timeout_is timeout_ms) m v = v
step-Kept (Call.buffer_size_is size) m v = v
step-Kept Call.stopped m v = stop_active_session-IsSession (record m { running = false }) v

after-IsSession :
    (calls : List Call) (m : ClientManager) (r : Option ClientManager)
    → IsSession m
    → Kept r
    → ((m' : ClientManager) → IsSession m' → IsSession (run calls m'))
    → IsSession (elim r as (λ _. ClientManager) [ none ↦ m | some m' ↦ run calls m' ])
unfolding Kept
after-IsSession calls m none v kept later = v
after-IsSession calls m (some m') v kept later = later m' kept

-- Whatever calls are made on a client manager with a sender exactly while a session is under way, there is
-- again a sender exactly while a session is under way.
pub run-IsSession : (calls : List Call) (m : ClientManager) → IsSession m → IsSession (run calls m)
unfolding run
run-IsSession [] m v = v
run-IsSession (call ∷ calls) m v =
    after-IsSession calls m (step call m) v (step-Kept call m v)
      (λ m' v'. run-IsSession calls m' v')
