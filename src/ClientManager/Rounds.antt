-- ===== src/ClientManager/Rounds.antt =====
-- src/ebus/app/client_manager.cpp: what a round of the loop over the sockets leaves behind, and what a
-- client that waits for the bus makes of bytes of others.
use ebus.Base.{
  Bool, List, Option, [], arith, false, get_or, if◌then◌else◌, leb, none, not, refl, set, some,
  true, ℕ, ◌++◌, ◌-◌, ◌==◌, ◌∷◌, ◌≡◌, ◌∙◌, ◌||◌, sym, subst, zero, suc,
}
use ebus.Client.{Client, ClientType, create_client, enqueue_outgoing_data}
use ebus.Client
use ebus.Client.Bridge.{BridgeAction, on_bus_byte, on_bus_byte_regular}
use ebus.Client.Inbound.{pop_pending_incoming_data}
use ebus.ClientManager.Io.{
  act, all_clients, forward, idle_round, is_same, on_bus_event_info, remove_disconnected_clients,
  serve_sender,
}
use ebus.ClientManager.{
  ClientManager, ManagerEvent, SessionState, check_session_timeout,
  handle_active_sender_disconnected, handle_bus_available_for_session, is_request, is_some,
  is_transmit, log, object, request_for, send_byte, set_object, stop_active_session,
  transit_session_state, try_send_next_byte,
}
use ebus.Request.{bus_available}
use ebus.Types.{RequestResult}

abbrev pub limit : ClientManager → ℕ
limit m = if is_transmit m.session_state then m.transmit_timeout else m.session_timeout

-- The sender, if there is one, is connected and has time left.
unfoldable pub IsLive : ℕ → ClientManager → Type 0
IsLive now m =
    (id : ℕ)
    → m.current_active_sender ≡ some id
    → ((object id m).connected ≡ true) × (leb (now - m.last_state_change) (limit m) ≡ true)

object-connected :
    (xs : List Client) (id : ℕ) (c d : Client)
    → c.connected ≡ (get_or xs id d).connected
    → (get_or (set xs id c) id d).connected ≡ (get_or xs id d).connected
object-connected [] id c d e = refl
object-connected (x ∷ xs) zero c d e = e
object-connected (x ∷ xs) (suc id) c d e = object-connected xs id c d e

checked-in_time :
    (now : ℕ) (m : ClientManager)
    → is_some (check_session_timeout now m).current_active_sender ≡ true
    → leb
        (now - (check_session_timeout now m).last_state_change)
        (limit (check_session_timeout now m))
      ≡ true
unfolding check_session_timeout log stop_active_session
checked-in_time now m e = ground arith

if-kept :
    (P : ClientManager → Type 0) (b : Bool) (m m' : ClientManager)
    → P m
    → P m'
    → P (if b then m else m')
if-kept P true m m' p p' = p
if-kept P false m m' p p' = p'

handled-IsLive :
    (now : ℕ) (m : ClientManager)
    → (is_some m.current_active_sender ≡ true → leb (now - m.last_state_change) (limit m) ≡ true)
    → IsLive now (handle_active_sender_disconnected m)
unfolding IsLive handle_active_sender_disconnected
handled-IsLive now m t id e = (ground arith, ground (arith, t))

request_for-IsLive :
    (now id : ℕ) (m : ClientManager)
    → m.current_active_sender ≡ some id
    → IsLive now m
    → IsLive now (request_for now id m)
unfolding IsLive request_for stop_active_session transit_session_state pop_pending_incoming_data
request_for-IsLive now id m s v i e =
    let gone = Client.stop (create_client ClientType.read_only 0) in
    let c = (pop_pending_incoming_data (object id m)).0 in
    let still = object-connected m.objects id c gone (ground arith) in
    let live = v id s in (ground (arith, still, live), ground (arith, live))

available-IsLive :
    (now : ℕ) (m : ClientManager) (sender : Option ℕ)
    → m.current_active_sender ≡ sender
    → IsLive now m
    → IsLive now (elim sender as (λ _. ClientManager) [
      | none ↦ m
      | some id ↦
          if not (is_request m.session_state) || not (object id m).connected
          then m
          else if bus_available m.request
          then request_for now id m
          else m
    ])
available-IsLive now m none e v = v
available-IsLive now m (some id) e v =
    if-kept (IsLive now) (not (is_request m.session_state) || not (object id m).connected) m _ v (
      if-kept (IsLive now) (bus_available m.request) (request_for now id m) m
        (request_for-IsLive now id m e v) v)

-- A round of the loop in which no socket is ready leaves no session behind whose client has gone or whose
-- time has run out: if there is still an active sender, it is connected, and no more time has passed since
-- the session last changed than the limit of its state allows.
pub idle_round-IsLive : (now : ℕ) (m : ClientManager) → IsLive now (idle_round now m)
unfolding idle_round handle_bus_available_for_session remove_disconnected_clients IsLive
idle_round-IsLive now m =
    let checked = check_session_timeout now m in
    let handled = handle_active_sender_disconnected checked in
    let swept = remove_disconnected_clients handled in
    available-IsLive now swept swept.current_active_sender refl
      (handled-IsLive now checked (checked-in_time now m))

forward-events :
    (sender : Option ℕ) (byte : ℕ) (slots : List (Option ℕ)) (m : ClientManager)
    → (forward sender byte slots m).events ≡ m.events
unfolding forward
forward-events sender byte [] m = refl
forward-events sender byte (none ∷ slots) m = forward-events sender byte slots m
forward-events sender byte (some id ∷ slots) m =
    let skipped = is_same sender id || not (object id m).connected in
    let c = enqueue_outgoing_data (byte ∷ []) (object id m) in
    let m' = if skipped then m else set_object id c m in
    forward-events sender byte slots m'
    ∙ if-kept (λ w. w.events ≡ m.events) skipped m (set_object id c m) refl refl

object-set :
    (xs : List Client) (id : ℕ) (c d : Client)
    → d.connected ≡ false
    → (get_or xs id d).connected ≡ true
    → get_or (set xs id c) id d ≡ c
object-set [] id c d e f = ground arith
object-set (x ∷ xs) zero c d e f = refl
object-set (x ∷ xs) (suc id) c d e f = object-set xs id c d e f

-- The client is connected and has the bytes queued.
abbrev pub Waits : List ℕ → Client → Type 0
Waits bytes c = (c.connected ≡ true) × (c.inbound ≡ bytes)

on_bus_byte-Waits :
    (byte b : ℕ) (bs : List ℕ) (c : Client)
    → c.kind ≡ ClientType.regular
    → Waits (b ∷ bs) c
    → Waits (b ∷ bs) (on_bus_byte RequestResult.observe_data byte c).0
unfolding on_bus_byte on_bus_byte_regular enqueue_outgoing_data
on_bus_byte-Waits byte b bs c kind (on, queued) = (ground arith, ground arith)

on_bus_byte-action :
    (byte : ℕ) (c : Client)
    → c.kind ≡ ClientType.regular
    → c.connected ≡ true
    → (on_bus_byte RequestResult.observe_data byte c).1
      ≡ (if byte == c.last_sent_byte then BridgeAction.bypass_wait else BridgeAction.stop_session)
unfolding on_bus_byte on_bus_byte_regular
on_bus_byte-action byte c kind on = ground arith

act-events :
    (now id b : ℕ) (bs : List ℕ) (hit : Bool) (m : ClientManager)
    → is_some m.current_active_sender ≡ true
    → Waits (b ∷ bs) (object id m)
    → (act now id (if hit then BridgeAction.bypass_wait else BridgeAction.stop_session) m).events
      ≡ m.events
        ++ (if hit then ManagerEvent.write_byte b else ManagerEvent.bus_request_blocked) ∷ []
unfolding act try_send_next_byte send_byte log transit_session_state stop_active_session
    pop_pending_incoming_data
act-events now id b bs true m some_sender (on, queued) = ground arith
act-events now id b bs false m some_sender (on, queued) = ground arith

handle_bus_available-events :
    (now : ℕ) (m : ClientManager) → (handle_bus_available_for_session now m).events ≡ m.events
unfolding handle_bus_available_for_session request_for stop_active_session transit_session_state
handle_bus_available-events now m = ground arith

serve_sender-events :
    (now byte id b : ℕ) (bs : List ℕ) (m : ClientManager)
    → is_some m.current_active_sender ≡ true
    → (object id m).kind ≡ ClientType.regular
    → Waits (b ∷ bs) (object id m)
    → (serve_sender now RequestResult.observe_data byte id m).events
      ≡ m.events
        ++ (if byte == (object id m).last_sent_byte
            then ManagerEvent.write_byte b
            else ManagerEvent.bus_request_blocked)
          ∷ []
unfolding serve_sender Client.stop
serve_sender-events now byte id b bs m some_sender kind (on, queued) =
    let old = object id m in
    let (c, action) = on_bus_byte RequestResult.observe_data byte old in
    let m' = set_object id c m in
    let hit = byte == old.last_sent_byte in
    let placed =
      object-set m.objects id c (Client.stop (create_client ClientType.read_only 0)) refl on in
    let waits = on_bus_byte-Waits byte b bs old kind (on, queued) in
    let acted =
      act-events now id b bs hit m' some_sender (subst (Waits (b ∷ bs)) (sym placed) waits) in
    let acted' =
      subst
        (λ a.
          (act now id a m').events
          ≡ m.events
            ++ (if hit then ManagerEvent.write_byte b else ManagerEvent.bus_request_blocked) ∷ [])
        (sym (on_bus_byte-action byte old kind on)) acted in
    rw on (handle_bus_available-events now (act now id action m') ∙ acted')

-- A connected regular client that waits for the bus, its request not yet made, with a byte queued: a data byte
-- of others puts the queued byte on the bus when it equals the byte the client last sent, or 0 if it has
-- sent none, and is counted as a blocked request otherwise.
pub on_bus_event_info_waiting :
    (now byte id b : ℕ) (bs : List ℕ) (m : ClientManager)
    → m.running ≡ true
    → m.session_state ≡ SessionState.request
    → m.current_active_sender ≡ some id
    → (object id m).connected ≡ true
    → (object id m).kind ≡ ClientType.regular
    → (object id m).inbound ≡ b ∷ bs
    → (on_bus_event_info now RequestResult.observe_data byte m).events
      ≡ m.events
        ++ (if byte == (object id m).last_sent_byte
            then ManagerEvent.write_byte b
            else ManagerEvent.bus_request_blocked)
          ∷ []
unfolding on_bus_event_info
on_bus_event_info_waiting now byte id b bs m running state sender on kind queued =
    let t = record m {
      running = true;
      session_state = SessionState.request;
      last_state_change = now;
      current_active_sender = some id;
    } in
    let w = serve_sender now RequestResult.observe_data byte id t in
    let served = serve_sender-events now byte id b bs t refl kind (on, queued) in
    let core = forward-events (some id) byte (all_clients m) w ∙ served in
    simp (running, sender, state) core
