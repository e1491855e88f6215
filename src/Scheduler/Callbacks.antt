-- ===== src/Scheduler/Callbacks.antt =====
-- What the handler's callbacks to src/ebus/app/scheduler.cpp put into the event sink.
use ebus.Base.{Bool, List, Option, [], false, if◌then◌else◌, none, some, true, ℕ, ◌==◌}
use ebus.Handler.{Handler, HandlerEvent}
use ebus.Scheduler.{ProtocolEvent, ProtocolEventType, Scheduler, assign_part, log}
use ebus.Types.{
  HandlerState, LogLevel, MessageType, ProtocolError, RequestResult, RequestState, SequenceState,
  TelegramType,
}

-- include/ebus/callbacks.hpp, without what the handler leaves at its default.
pub record ProtocolInfo : Type 0 where
  pub is_error : Bool
  pub level : LogLevel
  pub handler_state : HandlerState
  pub request_state : RequestState
  pub message_type : MessageType
  pub telegram_type : TelegramType
  pub protocol_error : ProtocolError
  pub result : RequestResult
  pub sequence_state : SequenceState
  pub master_view : List ℕ
  pub slave_view : List ℕ

abbrev pub no_info : ProtocolInfo
no_info = record {
  is_error = false;
  level = LogLevel.none;
  handler_state = HandlerState.passive_receive_master;
  request_state = RequestState.observe;
  message_type = MessageType.undefined;
  telegram_type = TelegramType.undefined;
  protocol_error = ProtocolError.none;
  result = RequestResult.observe_data;
  sequence_state = SequenceState.seq_empty;
  master_view = [];
  slave_view = [];
}

-- The argument of the handler's protocol callback, where an event of its log is such a call.
abbrev pub protocol_info : HandlerEvent → Option ProtocolInfo
protocol_info (HandlerEvent.on_telegram message_type telegram_type state request_state m s) =
    some (record no_info {
      handler_state = state;
      request_state = request_state;
      message_type = message_type;
      telegram_type = telegram_type;
      master_view = m;
      slave_view = s;
    })
protocol_info (HandlerEvent.on_error level e result sequence_state state request_state m s) =
    some (record no_info {
      is_error = true;
      level = level;
      handler_state = state;
      request_state = request_state;
      protocol_error = e;
      result = result;
      sequence_state = sequence_state;
      master_view = m;
      slave_view = s;
    })
protocol_info _ = none

-- `ProtocolEvent ev{}`
abbrev pub no_event : ProtocolEvent
no_event = record {
  kind = ProtocolEventType.won;
  level = LogLevel.none;
  session_id = 0;
  poll_id = 0;
  attempts = 0;
  handler_state = HandlerState.passive_receive_master;
  request_state = RequestState.observe;
  message_type = MessageType.undefined;
  telegram_type = TelegramType.undefined;
  protocol_error = ProtocolError.none;
  result = RequestResult.observe_data;
  sequence_state = SequenceState.seq_empty;
  master = [];
  slave = [];
}

-- What `onBusRequestWon` and `onBusRequestLost` share.
unfoldable pub report_arbitration : ProtocolEventType → Handler → Scheduler → Scheduler
report_arbitration kind h s =
    if s.current_session_id == 0
    then s
    else log
        (record no_event {
          kind = kind;
          session_id = s.current_session_id;
          poll_id = s.current_poll_id;
          handler_state = h.state;
          request_state = RequestState.observe;
        })
        s

unfoldable pub on_bus_request_won : Handler → Scheduler → Scheduler
unfolding report_arbitration
on_bus_request_won h s = report_arbitration ProtocolEventType.won h s

unfoldable pub on_bus_request_lost : Handler → Scheduler → Scheduler
unfolding report_arbitration
on_bus_request_lost h s = report_arbitration ProtocolEventType.lost h s

abbrev pub active_attempts : Scheduler → ℕ
active_attempts s = elim s.active_item [
  | none ↦ 0
  | some a ↦ if a.session_id == s.current_session_id then a.item.attempts else 0
]

-- The event that `onHandlerProtocol` makes of the callback's argument.
abbrev pub event_of : ProtocolInfo → Scheduler → ProtocolEvent
event_of info s = record {
  kind = if info.is_error then ProtocolEventType.error else ProtocolEventType.telegram;
  level = info.level;
  session_id = s.current_session_id;
  poll_id = s.current_poll_id;
  attempts = active_attempts s;
  handler_state = info.handler_state;
  request_state = info.request_state;
  message_type = if info.is_error then MessageType.undefined else info.message_type;
  telegram_type = if info.is_error then TelegramType.undefined else info.telegram_type;
  protocol_error = if info.is_error then info.protocol_error else ProtocolError.none;
  result = if info.is_error then info.result else RequestResult.observe_data;
  sequence_state = if info.is_error then info.sequence_state else SequenceState.seq_empty;
  master = assign_part info.master_view;
  slave = assign_part info.slave_view;
}

unfoldable pub on_handler_protocol : ProtocolInfo → Scheduler → Scheduler
on_handler_protocol info s = log (event_of info s) s
