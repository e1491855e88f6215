-- ===== src/ClientManager/Session.antt =====
-- src/ebus/app/client_manager.cpp: there is a session exactly while some client is the active sender.
use ebus.Base.{
  sym, subst, Bool, Bool-cases, List, Option, [], arith, if◌then◌else◌, inl, inr, none, not, refl,
  some, true, ℕ, ◌∷◌, ◌||◌, ◌∙◌, false, ◌||◌, ◌≡◌,
}
use ebus.Client.Bridge.{BridgeAction, on_bus_byte}
use ebus.ClientManager.Io.{
  act, all_clients, forward, is_same, on_bus_event_info, serve_sender, touch,
}
use ebus.ClientManager.{
  ClientManager, check_session_timeout, handle_active_sender_disconnected,
  handle_bus_available_for_session, is_idle, is_some, log, object, on_bus_requested, request_for,
  send_byte, set_object, stop_active_session, transit_session_state, try_send_next_byte,
  try_start_session_for_client,
}
use ebus.Client.{Client, enqueue_outgoing_data}
use ebus.Types.{RequestResult}

-- There is an active sender exactly when the session is under way.
unfoldable pub IsSession : ClientManager → Type 0
IsSession m = is_some m.current_active_sender ≡ not (is_idle m.session_state)

unfoldable pub SameSession : ClientManager → ClientManager → Type 0
SameSession m m' =
    (m'.current_active_sender ≡ m.current_active_sender) × (m'.session_state ≡ m.session_state)

pub SameSession-IsSession : (m m' : ClientManager) → SameSession m m' → IsSession m → IsSession m'
unfolding IsSession SameSession
SameSession-IsSession m m' (sender, state) v = rw (sender, state) v

pub stop_active_session-IsSession :
    (m : ClientManager) → IsSession m → IsSession (stop_active_session m)
unfolding IsSession stop_active_session
stop_active_session-IsSession m v = ground arith

pub request_for-IsSession :
    (now id : ℕ) (m : ClientManager)
    → is_some m.current_active_sender ≡ true
    → IsSession m
    → IsSession (request_for now id m)
unfolding IsSession request_for stop_active_session transit_session_state
request_for-IsSession now id m e v = ground arith

pub handle_bus_available-IsSession :
    (now : ℕ) (m : ClientManager) → IsSession m → IsSession (handle_bus_available_for_session now m)
unfolding handle_bus_available_for_session IsSession request_for stop_active_session
    transit_session_state
handle_bus_available-IsSession now m v = ground arith

pub send_byte-IsSession :
    (now byte : ℕ) (m : ClientManager)
    → is_some m.current_active_sender ≡ true
    → IsSession (send_byte now byte m)
unfolding IsSession send_byte log transit_session_state
send_byte-IsSession now byte m e = ground arith

pub try_send_next_byte-IsSession :
    (now id : ℕ) (m : ClientManager)
    → is_some m.current_active_sender ≡ true
    → IsSession m
    → IsSession (try_send_next_byte now id m)
unfolding IsSession try_send_next_byte send_byte log transit_session_state
try_send_next_byte-IsSession now id m e v = ground arith

pub try_start_session_for_client-IsSession :
    (now id : ℕ) (m : ClientManager)
    → IsSession m
    → IsSession (try_start_session_for_client now id m)
unfolding IsSession try_start_session_for_client transit_session_state
try_start_session_for_client-IsSession now id m v = ground arith

pub check_session_timeout-IsSession :
    (now : ℕ) (m : ClientManager) → IsSession m → IsSession (check_session_timeout now m)
unfolding IsSession check_session_timeout log stop_active_session
check_session_timeout-IsSession now m v = ground arith

pub handle_disconnected-IsSession :
    (m : ClientManager) → IsSession m → IsSession (handle_active_sender_disconnected m)
unfolding IsSession handle_active_sender_disconnected
handle_disconnected-IsSession m v = ground arith

pub on_bus_requested-IsSession :
    (now : ℕ) (m : ClientManager) → IsSession m → IsSession (on_bus_requested now m)
unfolding IsSession on_bus_requested transit_session_state
on_bus_requested-IsSession now m v = ground arith

pub act-IsSession :
    (now id : ℕ) (action : BridgeAction) (m : ClientManager)
    → is_some m.current_active_sender ≡ true
    → IsSession m
    → IsSession (act now id action m)
unfolding IsSession act stop_active_session log transit_session_state try_send_next_byte send_byte
act-IsSession now id action m e v = ground arith

pub serve_sender-IsSession :
    (now : ℕ) (result : RequestResult) (byte id : ℕ) (m : ClientManager)
    → is_some m.current_active_sender ≡ true
    → IsSession m
    → IsSession (serve_sender now result byte id m)
unfolding serve_sender IsSession
serve_sender-IsSession now result byte id m e v = elim (Bool-cases (object id m).connected) [
  | inl on ↦
      let (c, action) = on_bus_byte result byte (object id m) in
      let acted = act-IsSession now id action (set_object id c m) e v in
      rw on (handle_bus_available-IsSession now (act now id action (set_object id c m)) acted)
  | inr off ↦ rw off v
]

SameSession-trans :
    (m m' m'' : ClientManager) → SameSession m m' → SameSession m' m'' → SameSession m m''
unfolding SameSession
SameSession-trans m m' m'' (a, b) (c, d) = (c ∙ a, d ∙ b)

pub either-SameSession :
    (skipped : Bool) (id : ℕ) (c : Client) (m : ClientManager)
    → SameSession m (if skipped then m else set_object id c m)
unfolding SameSession
either-SameSession true id c m = (refl, refl)
either-SameSession false id c m = (refl, refl)

pub forward-SameSession :
    (sender : Option ℕ) (byte : ℕ) (slots : List (Option ℕ)) (m : ClientManager)
    → SameSession m (forward sender byte slots m)
unfolding forward SameSession
forward-SameSession sender byte [] m = (refl, refl)
forward-SameSession sender byte (none ∷ slots) m = forward-SameSession sender byte slots m
forward-SameSession sender byte (some id ∷ slots) m =
    let skipped = is_same sender id || not (object id m).connected in
    let c = enqueue_outgoing_data (byte ∷ []) (object id m) in
    let m' = if skipped then m else set_object id c m in
    SameSession-trans m m' (forward sender byte slots m') (either-SameSession skipped id c m)
      (forward-SameSession sender byte slots m')

pub touch-SameSession : (now : ℕ) (m : ClientManager) → SameSession m (touch now m)
unfolding SameSession
touch-SameSession now m = ground arith

-- What the active sender, if any, has made of a byte.
pub served-IsSession :
    (now : ℕ) (result : RequestResult) (byte : ℕ) (sender : Option ℕ) (m : ClientManager)
    → m.current_active_sender ≡ sender
    → IsSession m
    → IsSession (elim sender as (λ _. ClientManager) [
      | none ↦ m
      | some id ↦ serve_sender now result byte id m
    ])
served-IsSession now result byte none m e v = v
served-IsSession now result byte (some id) m e v =
    serve_sender-IsSession now result byte id m (rw e refl) v

pub on_bus_event_info-IsSession :
    (now : ℕ) (result : RequestResult) (byte : ℕ) (m : ClientManager)
    → IsSession m
    → IsSession (on_bus_event_info now result byte m)
unfolding on_bus_event_info SameSession IsSession
on_bus_event_info-IsSession now result byte m v =
    let touched = touch now m in
    let same = touch-SameSession now m in
    let sender = m.current_active_sender in
    let w : ClientManager = elim sender [
      | none ↦ touched
      | some id ↦ serve_sender now result byte id touched
    ] in
    let kept =
      served-IsSession now result byte sender touched same.0
        (SameSession-IsSession m touched same v) in
    elim (Bool-cases m.running) [
      | inl on ↦
          subst (λ b. IsSession (if not b then m else forward sender byte (all_clients m) w))
            (sym on)
            (SameSession-IsSession w (forward sender byte (all_clients m) w)
              (forward-SameSession sender byte (all_clients m) w) kept)
      | inr off ↦ rw off v
    ]
