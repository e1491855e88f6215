-- ===== src/Handler/Alarms.antt =====
-- The events of src/ebus/core/handler.cpp that are written bytes or reports of an illegal transition.
use ebus.Base.{
  Bool, List, [], arith, false, if◌then◌else◌, leb, not, true, ℕ, ◌&&◌, ◌++◌, ◌+◌, ◌∷◌, ◌≡◌,
}
use ebus.Handler.{Handler, HandlerEvent, on_error, write_byte}
use ebus.Sequence.{size}
use ebus.Types.{HandlerState, ProtocolError, is_master_master}

abbrev is_illegal_transition : ProtocolError → Bool
is_illegal_transition ProtocolError.illegal_fsm_transition = true
is_illegal_transition _ = false

abbrev pub is_alarm : HandlerEvent → Bool
is_alarm (write_byte byte) = true
is_alarm (on_error level e result sequence_state state request_state m s) = is_illegal_transition e
is_alarm _ = false

-- How many of the events are such.
unfoldable pub alarms : List HandlerEvent → ℕ
alarms [] = 0
alarms (e ∷ events) = (if is_alarm e then 1 else 0) + alarms events

pub alarms-append :
    (events : List HandlerEvent) (e : HandlerEvent)
    → alarms (events ++ e ∷ []) ≡ alarms events + (if is_alarm e then 1 else 0)
unfolding alarms
alarms-append [] e = omega arith
alarms-append (x ∷ events) e = omega (arith, alarms-append events e)

-- A state that sends finds its buffer used up, which the handler itself reports as an illegal transition.
abbrev pub nothing_to_send : HandlerState → Handler → Bool
nothing_to_send HandlerState.active_send_master h = leb (size h.active_master) h.active_master_index
nothing_to_send HandlerState.reactive_send_master_positive_acknowledge h =
    not (is_master_master (h.passive_telegram).telegram_type)
    && leb (size h.passive_slave) h.passive_slave_index
nothing_to_send _ h = false
