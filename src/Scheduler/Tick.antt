-- ===== src/Scheduler/Tick.antt =====
-- src/ebus/app/scheduler.cpp: the periodic step, and what a result does to the message being sent. The
-- handler is the one that sends; `now` and `start_time` are readings of the clock.
use ebus.Base.{
  Bool, List, [], false, if◌then◌else◌, leb, ltb, none, not, some, true, ℕ, ◌%◌, ◌&&◌, ◌*◌, ◌+◌,
  ◌-◌, ◌==◌, ◌^◌, ◌∷◌,
}
use ebus.Handler.{Handler, send_active_message, total_attempts, update_handler}
use ebus.Handler
use ebus.Heap.{HeapOps}
use ebus.Scheduler.{
  ActiveAttempt, Item, ProtocolEvent, ProtocolEventType, Scheduler, assign_part, backoff_duration,
  compare_items, log, max_items,
}
use ebus.Scheduler.Callbacks.{no_event}
use ebus.StaticVector
use ebus.Types.{LogLevel, ProtocolError, RequestResult, RequestState}

abbrev pub Node : Type 0
Node = Scheduler × Handler

abbrev pub is_won_event : ProtocolEventType → Bool
is_won_event ProtocolEventType.won = true
is_won_event _ = false

abbrev pub is_failure : ProtocolEventType → Bool
is_failure ProtocolEventType.lost = true
is_failure ProtocolEventType.error = true
is_failure _ = false

abbrev pub is_invalid_message : ProtocolError → Bool
is_invalid_message ProtocolError.invalid_message = true
is_invalid_message _ = false

abbrev pub is_error_event : ProtocolEventType → Bool
is_error_event ProtocolEventType.error = true
is_error_event _ = false

abbrev pub is_fatal : ProtocolEvent → Bool
is_fatal event = is_error_event event.kind && is_invalid_message event.protocol_error

-- No message is being sent any more.
unfoldable pub release : Scheduler → Scheduler
release s = record s { active_item = none; current_session_id = 0; current_poll_id = 0 }

-- `timeout_ev`
abbrev pub timeout_event : ActiveAttempt → Handler → ProtocolEvent
timeout_event a h = record no_event {
  kind = ProtocolEventType.error;
  session_id = a.session_id;
  poll_id = a.item.poll_id;
  protocol_error = ProtocolError.total_transfer_timeout;
  result = RequestResult.first_error;
  sequence_state = (h.active_telegram).master_state;
  level = LogLevel.error;
  handler_state = h.state;
  request_state = RequestState.observe;
  master = assign_part (a.item).message.sequence;
}

-- `fail_ev`
abbrev pub fail_event : Item → Handler → ProtocolEvent
fail_event it h = record no_event {
  kind = ProtocolEventType.error;
  session_id = it.session_id;
  poll_id = it.poll_id;
  protocol_error = ProtocolError.invalid_message;
  result = RequestResult.first_error;
  sequence_state = (h.active_telegram).master_state;
  level = LogLevel.error;
  handler_state = h.state;
  request_state = RequestState.observe;
}

-- The item is handed to the handler.
unfoldable pub start_item : ℕ → Item → Node → Node
start_item start_time it (s, h) =
    let s' = record s {
      active_item =
          some (record { item = it; start_time = start_time; session_id = it.session_id });
    } in
    let (h', sent) = send_active_message it.message.sequence h in
    if sent then (s', h') else (log (fail_event it h') s', h')

-- The branch of `tick` with a message being sent.
unfoldable pub watch_item : ℕ → ActiveAttempt → Node → Node × Bool
watch_item now a (s, h) =
    if ltb (s.total_timeout * 1000) (now - a.start_time)
    then ((log (timeout_event a h) s, Handler.reset h), true)
    else ((s, h), false)

module _ (heap : HeapOps compare_items) where
  -- The first item of the queue is taken out.
  unfoldable pub pop_item : Item → List Item → Scheduler → Item × Scheduler
  pop_item first rest s =
      let popped = heap.pop_heap (first ∷ rest) in
      let it = StaticVector.back first popped in
      (
        it,
        record s {
          scheduled_items = StaticVector.pop_back popped;
          current_session_id = it.session_id;
          current_poll_id = it.poll_id;
        },
      )

  unfoldable pub start_due : ℕ → ℕ → List Item → Node → Node × Bool
  unfolding pop_item
  start_due now start_time [] n = (n, false)
  start_due now start_time (first ∷ rest) (s, h) =
      let (it, s') = pop_item first rest s in
      if not (leb first.due now)
      then ((s, h), false)
      else if h.active_message
      then ((s, h), false)
      else (start_item start_time it (s', h), true)

  unfoldable pub tick : ℕ → ℕ → Node → Node × Bool
  unfolding start_due watch_item
  tick now start_time (s, h) = elim s.active_item [
    | some a ↦ watch_item now a (s, h)
    | none ↦ start_due now start_time s.scheduled_items (s, h)
  ]

  -- Back into the queue, due behind the backoff; a full queue drops the item.
  unfoldable pub reschedule : ℕ → Item → Scheduler → Scheduler
  reschedule now it s =
      let it' = record it { due = now + backoff_duration it.attempts s } in
      release (record s {
        scheduled_items = heap.push_heap (StaticVector.push_back max_items it' s.scheduled_items).0;
      })

  unfoldable pub inject_active : ProtocolEvent → ℕ → ActiveAttempt → Node → Node × Bool
  unfolding reschedule release
  inject_active event now a (s, h) =
      let it = record (a.item) { attempts = (a.item.attempts + 1) % 256 } in
      if not (event.session_id == a.session_id)
      then ((s, h), false)
      else if is_won_event event.kind
      then ((s, h), true)
      else if is_failure event.kind && (not (is_fatal event) && ltb it.attempts s.max_attempts)
      then ((reschedule now it s, update_handler total_attempts h), true)
      else ((release s, h), true)

  unfoldable pub inject_protocol_event : ProtocolEvent → ℕ → Node → Node × Bool
  unfolding inject_active
  inject_protocol_event event now (s, h) = elim s.active_item [
    | none ↦ ((s, h), false)
    | some a ↦ inject_active event now a (s, h)
  ]

-- The clock's greatest time point.
abbrev pub never : ℕ
never = 2 ^ 63 - 1

unfoldable pub next_due_time : Node → ℕ
next_due_time (s, h) = elim s.active_item [
  | some a ↦ a.start_time + s.total_timeout * 1000
  | none ↦
      if h.active_message
      then never
      else elim s.scheduled_items [ [] ↦ never | first ∷ rest ↦ first.due ]
]
