-- ===== src/Scheduler.antt =====
-- src/ebus/app/scheduler.hpp and scheduler.cpp: the queue of messages to send, by time and priority, and
-- the one that is being sent. A time point is a number of microseconds since the clock's epoch, and not
-- bounded; a call that reads the clock gets what it reads as an argument. An event for the sink is an
-- event of the record's log, oldest first. The handler is there.
pub mod Callbacks
pub mod Tick
pub mod Order
pub mod Queue
pub mod Invariant
pub mod Calls
pub mod Injected
pub mod Kept
pub mod Attempts
pub mod Effects
use ebus.Base.{
  Bool, List, Option, [], false, if◌then◌else◌, leb, length, ltb, none, not, take, true, ℕ, ◌%◌,
  ◌*◌, ◌++◌, ◌+◌, ◌-◌, ◌/◌, ◌==◌, ◌^◌, ◌∷◌,
}
use ebus.Heap.{HeapOps}
use ebus.Sequence.{Sequence, size}
use ebus.StaticVector
use ebus.Telegram.{of_bytes}
use ebus.Types.{
  HandlerState, LogLevel, MessageType, ProtocolError, RequestResult, RequestState, SequenceState,
  TelegramType,
}

-- src/ebus/app/protocol_event.hpp; `kind` is the field `type`. Time stamps are left out.
pub data ProtocolEventType : Type 0 where
  won lost telegram error : ProtocolEventType

pub record ProtocolEvent : Type 0 where
  pub kind : ProtocolEventType
  pub level : LogLevel
  pub session_id : ℕ
  pub poll_id : ℕ
  pub attempts : ℕ
  pub handler_state : HandlerState
  pub request_state : RequestState
  pub message_type : MessageType
  pub telegram_type : TelegramType
  pub protocol_error : ProtocolError
  pub result : RequestResult
  pub sequence_state : SequenceState
  pub master : List ℕ
  pub slave : List ℕ

-- `StaticSequence::assign` at the capacity of an event's parts.
abbrev pub model_capacity : ℕ
model_capacity = 24

abbrev pub assign_part : List ℕ → List ℕ
assign_part bytes = take model_capacity bytes

pub record Item : Type 0 where
  pub priority : ℕ
  pub due : ℕ
  pub session_id : ℕ
  pub poll_id : ℕ
  pub attempts : ℕ
  pub message : Sequence

abbrev pub jitter_threshold : ℕ
jitter_threshold = 2 * 1000

-- `Compare`: true where the right one is to be sent before the left one.
abbrev pub compare_items : Item → Item → Bool
compare_items lhs rhs =
    let lhs_bucket = lhs.due / jitter_threshold in
    let rhs_bucket = rhs.due / jitter_threshold in
    if not (lhs_bucket == rhs_bucket)
    then ltb rhs_bucket lhs_bucket
    else if not (lhs.priority == rhs.priority)
    then ltb lhs.priority rhs.priority
    else ltb rhs.session_id lhs.session_id

pub record ActiveAttempt : Type 0 where
  pub item : Item
  pub start_time : ℕ
  pub session_id : ℕ

-- `base_backoff` is in microseconds, the timeouts are in milliseconds.
pub record Scheduler : Type 0 where
  pub scheduled_items : List Item
  pub max_queue_size : ℕ
  pub active_item : Option ActiveAttempt
  pub next_session_id : ℕ
  pub current_session_id : ℕ
  pub current_poll_id : ℕ
  pub max_attempts : ℕ
  pub base_backoff : ℕ
  pub fsm_timeout : ℕ
  pub total_timeout : ℕ
  pub events : List ProtocolEvent

-- SchedulerLimits::max_items.
abbrev pub max_items : ℕ
max_items = 8

-- `Scheduler(handler)`, with the configuration's defaults.
abbrev pub initial : Scheduler
initial = record {
  scheduled_items = [];
  max_queue_size = 0;
  active_item = none;
  next_session_id = 1;
  current_session_id = 0;
  current_poll_id = 0;
  max_attempts = 3;
  base_backoff = 100 * 1000;
  fsm_timeout = 1000;
  total_timeout = 2000;
  events = [];
}

unfoldable pub set_max_attempts : ℕ → Scheduler → Scheduler
set_max_attempts max_attempts s = record s {
  max_attempts = if max_attempts == 0 then 1 else max_attempts;
}

unfoldable pub set_base_backoff : ℕ → Scheduler → Scheduler
set_base_backoff base_backoff_ms s = record s {
  base_backoff = (if base_backoff_ms == 0 then 1 else base_backoff_ms) * 1000;
}

unfoldable pub set_fsm_timeout : ℕ → Scheduler → Scheduler
set_fsm_timeout timeout_ms s = record s { fsm_timeout = timeout_ms }

unfoldable pub set_total_timeout : ℕ → Scheduler → Scheduler
set_total_timeout timeout_ms s = record s { total_timeout = timeout_ms }

unfoldable pub log : ProtocolEvent → Scheduler → Scheduler
log e s = record s { events = s.events ++ e ∷ [] }

-- An empty vector is a heap as it is.
unfoldable pub clear : Scheduler → Scheduler
clear s = record s { scheduled_items = []; active_item = none }

unfoldable pub stop : Scheduler → Scheduler
unfolding clear
stop s = clear (record s { active_item = none })

-- The multipliers are 2 ^ (attempt - 1); the duration's maximum is that of 64 bits with a sign.
unfoldable pub backoff_duration : ℕ → Scheduler → ℕ
backoff_duration attempt s =
    if attempt == 0
    then 0
    else if ltb 10 attempt
    then 2 ^ 63 - 1
    else s.base_backoff * 2 ^ (attempt - 1)

unfoldable pub reset_peak_metrics : Scheduler → Scheduler
reset_peak_metrics s = record s { max_queue_size = length s.scheduled_items }

module _ (heap : HeapOps compare_items) where
  unfoldable pub push_item : Item → Scheduler → Scheduler × Bool
  push_item it s =
      let items = (StaticVector.push_back max_items it s.scheduled_items).0 in
      let size = length items in
      if leb max_items (length s.scheduled_items) then (s, false) else (
        record s {
          scheduled_items = heap.push_heap items;
          max_queue_size = if ltb s.max_queue_size size then size else s.max_queue_size;
        },
        true,
      )

  -- The session id, or 0 if the queue is full. `enqueue` is due at once.
  unfoldable pub enqueue_at : ℕ → List ℕ → ℕ → ℕ → Scheduler → Scheduler × ℕ
  unfolding push_item
  enqueue_at priority message when poll_id s =
      let session_id = s.next_session_id in
      let it : Item = record {
        priority = priority;
        due = when;
        session_id = session_id;
        poll_id = poll_id;
        attempts = 0;
        message = of_bytes message;
      } in
      let (s', pushed) = push_item it (record s { next_session_id = (session_id + 1) % 2 ^ 32 }) in
      (s', if pushed then session_id else 0)

  unfoldable pub enqueue : ℕ → ℕ → List ℕ → ℕ → Scheduler → Scheduler × ℕ
  unfolding enqueue_at
  enqueue now priority message poll_id s = enqueue_at priority message now poll_id s
