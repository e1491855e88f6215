-- ===== src/Tests/Clients.antt =====
-- src/ebus/app/client.cpp and client_manager.cpp on concrete clients.
use ebus.Base.{List, [], arith, none, refl, some, ◌++◌, ◌∷◌, ◌≡◌}
use ebus.Client.{Client, ClientType, WriteAnswer, create_client, flush_outgoing_data}
use ebus.Client.Flushed.{flush_outgoing_data-splits}
use ebus.Client.Inbound.{handle_incoming_stream}
use ebus.Client.Outbound.{bytes_of}
use ebus.ClientManager.Calls.{Call, run}
use ebus.ClientManager.Io.{ReceiveAnswer, add_client, handle_socket_input, idle_round}
use ebus.ClientManager.Kept.{run-IsSession}
use ebus.ClientManager.Rounds.{IsLive, idle_round-IsLive}
use ebus.ClientManager.Session.{IsSession}
use ebus.ClientManager.{ClientManager, initial, SessionState}
use ebus.Enhanced
use ebus.Request
use ebus.Ring.{IsRing}

-- Three of four slots are taken, and the bytes go round the end of the buffer.
abbrev receiver : ClientType → Client
receiver kind = record (create_client kind 4) {
  outbound = record { buffer = 3 ∷ 9 ∷ 1 ∷ 2 ∷ []; head = 2; count = 3 };
}

receiver-IsRing : (kind : ClientType) → IsRing (receiver kind).outbound
receiver-IsRing kind = record { head_below = omega arith; count_le = omega arith }

flush_outgoing_data-splits_example :
    let answers = WriteAnswer.wrote 2 ∷ WriteAnswer.would_block ∷ [] in
    let (c', alive, sent) = flush_outgoing_data answers (receiver ClientType.regular) in
    IsRing c'.outbound × (sent ++ bytes_of c'.outbound ≡ 1 ∷ 2 ∷ 3 ∷ []) × (c'.connected ≡ alive)
flush_outgoing_data-splits_example =
    flush_outgoing_data-splits (WriteAnswer.wrote 2 ∷ WriteAnswer.would_block ∷ [])
      (receiver ClientType.regular) (receiver-IsRing ClientType.regular)

abbrev empty : ClientManager
empty = initial Request.initial

-- A regular client connects and sends two bytes.
abbrev calls : List Call
calls =
    Call.add ClientType.regular
    ∷ Call.input 10 0 (ReceiveAnswer.received (0x10 ∷ 0x15 ∷ []) ∷ [])
    ∷ []

empty-IsSession : IsSession empty
unfolding IsSession
empty-IsSession = refl

run-IsSession_example : IsSession (run calls empty)
run-IsSession_example = run-IsSession calls empty empty-IsSession

-- The client has asked for the bus and has not had it yet.
abbrev waiting : ClientManager
waiting = record (initial Request.initial) {
  objects = record (create_client ClientType.regular 16) { inbound = 0x10 ∷ 0x15 ∷ [] } ∷ [];
  regular_clients = some 0 ∷ none ∷ none ∷ none ∷ [];
  session_state = SessionState.request;
  current_active_sender = some 0;
  last_state_change = 10;
}

run_test :
    ((run calls empty).session_state ≡ SessionState.request)
    × ((run calls empty).current_active_sender ≡ some 0)
unfolding run handle_socket_input handle_incoming_stream add_client
run_test = (refl, refl)

idle_round-IsLive_example : IsLive 511 (idle_round 511 waiting)
idle_round-IsLive_example = idle_round-IsLive 511 waiting

-- A byte 0 of others lets the client send without arbitration.
