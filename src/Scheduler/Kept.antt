-- ===== src/Scheduler/Kept.antt =====
-- What every call on the scheduler of src/ebus/app/scheduler.cpp keeps, over a list of calls.
use ebus.Base.{
  Bool, Bool-cases, List, [], arith, false, inl, inr, none, refl, ℕ, ◌%◌, ◌+◌, ◌<◌, ◌==◌, ◌^◌, ◌∷◌,
  ◌≡◌,
}
use ebus.Handler.{Handler}
use ebus.Scheduler.{
  Scheduler, clear, reset_peak_metrics, set_base_backoff, set_fsm_timeout, set_total_timeout, log,
  enqueue_at, ProtocolEventType, set_max_attempts, Item, ProtocolEvent, backoff_duration,
  compare_items, max_items, stop,
}
use ebus.Scheduler.Callbacks.{
  on_bus_request_lost, on_bus_request_won, on_handler_protocol, report_arbitration,
}
use ebus.Scheduler.Calls.{Call, run, step, Setting, settle}
use ebus.Scheduler.Invariant.{
  log-IsValid, push_item-IsValid, IsValid, pop_item-IsValid, push-kept, start_item-IsValid,
  nothing_queued, worn,
}
use ebus.Scheduler.Tick.{Node, timeout_event, release, pop_item, reschedule}
use ebus.StaticVector
use ebus.Telegram.{of_bytes}
use ebus.Scheduler.Injected.{Injected, Ticked, inject-Injected, tick-Ticked, next_attempt}
use ebus.Heap.{HeapOps}

-- What the invariant does not speak of.
abbrev pub Unchanged : Scheduler → Scheduler → Type 0
Unchanged s s' =
    (s'.scheduled_items ≡ s.scheduled_items)
    × (s'.max_attempts ≡ s.max_attempts)
    × (s'.active_item ≡ s.active_item)
    × (s'.current_session_id ≡ s.current_session_id)

Unchanged-IsValid : {s s' : Scheduler} → Unchanged s s' → IsValid s → IsValid s'
Unchanged-IsValid {s} {s'} (items, attempts, active, session) v = record {
  queue = rw items v.queue;
  bounded = rw items v.bounded;
  tries = rw attempts v.tries;
  tries_fit = rw attempts v.tries_fit;
  fresh = rw items v.fresh;
  current = rw (active, session) v.current;
}

report_arbitration-Unchanged :
    (kind : ProtocolEventType) (h : Handler) (s : Scheduler)
    → Unchanged s (report_arbitration kind h s)
unfolding report_arbitration log
report_arbitration-Unchanged kind h s = elim (Bool-cases (s.current_session_id == 0)) [
  | inl e ↦ rw e (refl, refl, refl, refl)
  | inr e ↦ rw e (refl, refl, refl, refl)
]

pub settle-Unchanged : (c : Setting) (s : Scheduler) (h : Handler) → Unchanged s (settle c (s, h))
unfolding settle set_base_backoff set_fsm_timeout set_total_timeout reset_peak_metrics
    on_bus_request_won on_bus_request_lost on_handler_protocol log
settle-Unchanged (Setting.base_backoff ms) s h = (refl, refl, refl, refl)
settle-Unchanged (Setting.fsm_timeout ms) s h = (refl, refl, refl, refl)
settle-Unchanged (Setting.total_timeout ms) s h = (refl, refl, refl, refl)
settle-Unchanged Setting.reset_peak s h = (refl, refl, refl, refl)
settle-Unchanged Setting.request_won s h = report_arbitration-Unchanged ProtocolEventType.won h s
settle-Unchanged Setting.request_lost s h = report_arbitration-Unchanged ProtocolEventType.lost h s
settle-Unchanged (Setting.protocol info) s h = (refl, refl, refl, refl)

released : (s : Scheduler) → IsValid s → IsValid (release s)
unfolding release
released s v = record {
  queue = v.queue;
  bounded = v.bounded;
  tries = v.tries;
  tries_fit = v.tries_fit;
  fresh = v.fresh;
  current = tt;
}

cleared : (s : Scheduler) → IsValid s → IsValid (clear s)
unfolding clear
cleared s v = record {
  queue = nothing_queued;
  bounded = omega arith;
  tries = v.tries;
  tries_fit = v.tries_fit;
  fresh = refl;
  current = tt;
}

stopped : (s : Scheduler) → IsValid s → IsValid (stop s)
unfolding stop clear
stopped s v = cleared s v

set_max_attempts-IsValid :
    (n : ℕ) (s : Scheduler) → n < 256 → IsValid s → IsValid (set_max_attempts n s)
unfolding set_max_attempts
set_max_attempts-IsValid n s l v = record {
  queue = v.queue;
  bounded = v.bounded;
  tries = ground arith;
  tries_fit = ground arith;
  fresh = v.fresh;
  current = v.current;
}

module _ (heap : HeapOps compare_items) where
  Ticked-IsValid :
      (now t : ℕ) (s : Scheduler) (h : Handler) (r : Node × Bool)
      → Ticked heap s h now t r
      → IsValid s
      → IsValid r.0.0
  Ticked-IsValid now t s h r Ticked.waited v = v
  Ticked-IsValid now t s h r (Ticked.expired a e) v = log-IsValid (timeout_event a h) s v
  Ticked-IsValid now t s h r (Ticked.started first rest e c) v =
      let p = pop_item heap first rest s in
      start_item-IsValid heap t p.0 p.1 h (pop_item-IsValid heap first rest s e v t)

  reschedule-IsValid :
      (now : ℕ) (it : Item) (s : Scheduler)
      → worn it ≡ false
      → IsValid s
      → IsValid (reschedule heap now it s)
  unfolding reschedule release
  reschedule-IsValid now it s w v =
      let it' = record it { due = now + backoff_duration it.attempts s } in
      let (queue, bounded, fresh) =
        push-kept heap it' s.scheduled_items v.queue v.bounded v.fresh w in
      released
        (record s {
          scheduled_items =
              heap.push_heap (StaticVector.push_back max_items it' s.scheduled_items).0;
          active_item = none;
        })
        record {
          queue = queue;
          bounded = bounded;
          tries = v.tries;
          tries_fit = v.tries_fit;
          fresh = fresh;
          current = tt;
        }

  Injected-IsValid :
      (event : ProtocolEvent) (now : ℕ) (s : Scheduler) (h : Handler) (r : Node × Bool)
      → Injected heap s h event now r
      → IsValid s
      → IsValid r.0.0
  Injected-IsValid event now s h r (Injected.nothing_active e) v = v
  Injected-IsValid event now s h r (Injected.other_session a e o) v = v
  Injected-IsValid event now s h r (Injected.arbitration_won a e w) v = v
  Injected-IsValid event now s h r (Injected.retried a e (f, n, l)) v =
      reschedule-IsValid now (next_attempt a.item) s (ground (arith, v.tries_fit)) v
  Injected-IsValid event now s h r (Injected.ended a e w) v = released s v

  enqueue_at-IsValid :
      (priority : ℕ) (message : List ℕ) (when poll_id : ℕ) (s : Scheduler)
      → IsValid s
      → IsValid (enqueue_at heap priority message when poll_id s).0
  unfolding enqueue_at
  enqueue_at-IsValid priority message when poll_id s v =
      let s' = record s { next_session_id = (s.next_session_id + 1) % 2 ^ 32 } in
      let it : Item = record {
        priority = priority;
        due = when;
        session_id = s.next_session_id;
        poll_id = poll_id;
        attempts = 0;
        message = of_bytes message;
      } in
      push_item-IsValid heap it s' (Unchanged-IsValid (refl, refl, refl, refl) v) refl

  pub step-IsValid :
      (c : Call) (s : Scheduler) (h : Handler) → IsValid s → IsValid (step heap c (s, h)).0
  unfolding step
  step-IsValid (Call.call_setting c) s h v = Unchanged-IsValid (settle-Unchanged c s h) v
  step-IsValid (Call.call_max_attempts n) s h v =
      set_max_attempts-IsValid (n % 2 ^ 8) s (omega arith) v
  step-IsValid Call.call_clear s h v = cleared s v
  step-IsValid Call.call_stop s h v = stopped s v
  step-IsValid (Call.call_enqueue_at priority message when poll_id) s h v =
      enqueue_at-IsValid priority message when poll_id s v
  step-IsValid (Call.call_tick now t) s h v =
      Ticked-IsValid now t s h _ (tick-Ticked heap s h now t) v
  step-IsValid (Call.call_inject event now) s h v =
      Injected-IsValid event now s h _ (inject-Injected heap s h event now) v

  -- Over any list of calls on the scheduler the queue stays a heap, of at most eight items, each with
  -- fewer than 255 attempts; the maximum of attempts stays between 1 and 255; and a message being sent
  -- has fewer than 255 attempts and the current session id.
  pub run-IsValid :
      (cs : List Call) (s : Scheduler) (h : Handler) → IsValid s → IsValid (run heap cs (s, h)).0
  unfolding run
  run-IsValid [] s h v = v
  run-IsValid (c ∷ cs) s h v =
      run-IsValid cs (step heap c (s, h)).0 (step heap c (s, h)).1 (step-IsValid c s h v)
