-- ===== src/ClientManager/Calls.antt =====
-- src/ebus/app/client_manager.cpp: the calls that change the client manager. Each runs from start to end; the
-- bus thread makes the first two, the thread of the sockets the others.
use ebus.Base.{List, Option, [], none, some, false, ℕ, ◌∷◌}
use ebus.Client.{ClientType, WriteAnswer}
use ebus.ClientManager.Io.{
  ReceiveAnswer, add_client, handle_socket_input, handle_socket_output, idle_round,
  on_bus_event_info, remove_client,
}
use ebus.ClientManager.{ClientManager, on_bus_requested, stop_active_session}
use ebus.Types.{RequestResult}

unfoldable pub set_session_timeout : ℕ → ClientManager → ClientManager
set_session_timeout timeout_ms m = record m { session_timeout = timeout_ms }

unfoldable pub set_transmit_timeout : ℕ → ClientManager → ClientManager
set_transmit_timeout timeout_ms m = record m { transmit_timeout = timeout_ms }

unfoldable pub set_outgoing_buffer_size : ℕ → ClientManager → ClientManager
set_outgoing_buffer_size size m = record m { outbound_buffer_size = size }

-- `ClientManager::stop`, without the thread and the listening sockets.
unfoldable pub stop : ClientManager → ClientManager
unfolding stop_active_session
stop m = stop_active_session (record m { running = false })

pub data Call : Type 0 where
  bus_requested : ℕ → Call
  bus_event : ℕ → RequestResult → ℕ → Call
  add : ClientType → Call
  remove : ℕ → Call
  input : ℕ → ℕ → List ReceiveAnswer → Call
  output : ℕ → List WriteAnswer → Call
  round session_timeout_is transmit_timeout_is buffer_size_is : ℕ → Call
  stopped : Call

-- A call that has to wait on a full queue gives none.
unfoldable pub step : Call → ClientManager → Option ClientManager
step (Call.bus_requested now) m = some (on_bus_requested now m)
step (Call.bus_event now result byte) m = some (on_bus_event_info now result byte m)
step (Call.add kind) m = some ((add_client kind m).0)
step (Call.remove id) m = some (remove_client id m)
step (Call.input now id answers) m = handle_socket_input now id answers m
step (Call.output id answers) m = some (handle_socket_output id answers m)
step (Call.round now) m = some (idle_round now m)
step (Call.session_timeout_is timeout_ms) m = some (set_session_timeout timeout_ms m)
step (Call.transmit_timeout_is timeout_ms) m = some (set_transmit_timeout timeout_ms m)
step (Call.buffer_size_is size) m = some (set_outgoing_buffer_size size m)
step Call.stopped m = some (stop m)

-- The calls, up to one that has to wait.
unfoldable pub run : List Call → ClientManager → ClientManager
unfolding step
run [] m = m
run (call ∷ calls) m = elim (step call m) [ none ↦ m | some m' ↦ run calls m' ]
