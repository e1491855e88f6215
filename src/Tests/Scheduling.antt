-- ===== src/Tests/Scheduling.antt =====
-- src/ebus/app/scheduler.hpp and scheduler.cpp on a message that is enqueued, started, and lost once.
use ebus.Base.{
  List, [], arith, none, refl, some, true, ℕ, ◌∷◌, ◌≡◌, ◌+◌, ◌<◌, ◌≤◌, ◌^◌, ◌%◌, ◌*◌, ◌⊎◌, count,
  length,
}
use ebus.Handler.{Handler, send_active_message}
use ebus.Handler
use ebus.Heap.{HeapOps}
use ebus.Heap.Sorted.{sorted_heap}
use ebus.Request
use ebus.Scheduler.{
  ActiveAttempt, Item, ProtocolEvent, ProtocolEventType, Scheduler, compare_items, enqueue_at,
  initial, log, max_items,
}
use ebus.Scheduler.Attempts.{attempts_ended, is_enqueue, run_paid, work}
use ebus.Scheduler.Callbacks.{event_of, no_event, no_info}
use ebus.Scheduler.Calls.{Call, Setting, run, step}
use ebus.Scheduler.Effects.{Started, enqueue_at_effect, new_item, telegram_ends, tick-Started}
use ebus.Scheduler.Invariant.{IsValid, nothing_queued, initial-IsValid}
use ebus.Scheduler.Kept.{run-IsValid}
use ebus.Scheduler.Order.{compare_items-IsStrictWeak}
use ebus.Scheduler.Tick.{start_item, inject_protocol_event, release, tick}
use mathlib.Core.List.{Perm}

abbrev heap : HeapOps compare_items
heap = sorted_heap compare_items compare_items-IsStrictWeak

abbrev device : Handler
unfolding Handler.initial
device = Handler.initial 0x31 Request.initial

-- An inquiry of the device at 0x08, without the source.
abbrev message : List ℕ
message = 0x08 ∷ 0x07 ∷ 0x04 ∷ 0x00 ∷ []

abbrev lost : ProtocolEvent
lost = record no_event { kind = ProtocolEventType.lost; session_id = 1 }

abbrev queued : List Call
queued = Call.call_enqueue_at 5 message 100 0 ∷ []

abbrev calls : List Call
calls =
    Call.call_setting (Setting.base_backoff 50)
    ∷ Call.call_enqueue_at 5 message 100 0
    ∷ Call.call_tick 200 200
    ∷ Call.call_inject lost 300
    ∷ []

run-IsValid_example : IsValid (run heap calls (initial, device)).0
run-IsValid_example = run-IsValid heap calls initial device initial-IsValid

run_paid_example :
    attempts_ended heap calls (initial, device) + work (run heap calls (initial, device)).0
    ≤ work initial + initial.max_attempts * count is_enqueue calls
run_paid_example = run_paid heap calls initial device initial-IsValid refl

abbrev waiting : Scheduler
waiting = (run heap queued (initial, device)).0

waiting-IsValid : IsValid waiting
waiting-IsValid = run-IsValid heap queued initial device initial-IsValid

waiting_idle : waiting.active_item ≡ none
unfolding run step enqueue_at
waiting_idle = refl

waiting_starts : (tick heap 200 200 (waiting, device)).1 ≡ true
unfolding tick run step enqueue_at device sorted_heap start_item log send_active_message
waiting_starts = refl

tick-Started_example : Started 200 200 waiting (tick heap 200 200 (waiting, device)).0.0
tick-Started_example =
    tick-Started heap 200 200 waiting device waiting-IsValid waiting_idle waiting_starts

enqueue_at_effect_example :
    let (s', id) = enqueue_at heap 7 message 150 0 waiting in
    let it = new_item 7 message 150 0 waiting in
    let accepted =
      Perm s'.scheduled_items (it ∷ waiting.scheduled_items) × (id ≡ waiting.next_session_id) in
    let refused = (s'.scheduled_items ≡ waiting.scheduled_items) × (id ≡ 0) in
    ((length waiting.scheduled_items < max_items) × accepted
      ⊎ (length waiting.scheduled_items ≡ max_items) × refused)
    × (s'.next_session_id ≡ (waiting.next_session_id + 1) % 2 ^ 32)
    × (s'.active_item ≡ waiting.active_item)
enqueue_at_effect_example = enqueue_at_effect heap 7 message 150 0 waiting waiting-IsValid

abbrev item : Item
item = new_item 5 message 100 0 initial

abbrev attempt : ActiveAttempt
attempt = record { item = item; start_time = 200; session_id = 1 }

-- A message is being sent, and the handler reports a telegram of others.
abbrev sending : Scheduler
sending = record initial { active_item = some attempt; current_session_id = 1; next_session_id = 2 }

sending-IsValid : IsValid sending
sending-IsValid = record {
  queue = nothing_queued;
  bounded = omega arith;
  tries = omega arith;
  tries_fit = omega arith;
  fresh = refl;
  current = (refl, refl, refl);
}

telegram_ends_example :
    inject_protocol_event heap (event_of no_info sending) 300 (sending, device)
    ≡ ((release sending, device), true)
telegram_ends_example =
    telegram_ends heap no_info 300 sending device attempt sending-IsValid refl refl
