-- ===== src/Scheduler/Attempts.antt =====
-- How often the messages of src/ebus/app/scheduler.cpp are tried: an upper bound over a run of calls.
use ebus.Base.{
  Bool, Bool-cases, List, Option, [], ap, arith, count, false, if◌then◌else◌, inl, inr, leb, length,
  ltb, none, not, refl, some, subst, suc, total, total-Perm, true, ℕ, ◌&&◌, ◌*◌, ◌+◌, ◌-◌, ◌<◌, ◌∷◌,
  ◌≡◌, ◌≤◌,
}
use ebus.Handler.{Handler, send_active_message}
use ebus.Scheduler.Kept.{settle-Unchanged, step-IsValid}
use ebus.Telegram.{of_bytes}
use ebus.Heap.{HeapOps}
use ebus.Scheduler.{
  log, max_items, Scheduler, ActiveAttempt, Item, ProtocolEvent, compare_items, backoff_duration,
  enqueue_at, push_item, clear, stop,
}
use ebus.Scheduler.Calls.{Call, step, Setting, settle, run}
use ebus.Scheduler.Invariant.{worn, IsValid, IsCurrent}
use ebus.Scheduler.Injected.{Injected, Ticked, next_attempt, inject-Injected, tick-Ticked}
use ebus.StaticVector
use ebus.Scheduler.Queue.{IsQueue, pop_item-Popped, push-Pushed, room}
use ebus.Scheduler.Tick.{
  Node, inject_protocol_event, is_won_event, pop_item, release, reschedule, start_item,
  timeout_event,
}

-- The attempts that an item may still take; the one that is under way counts.
abbrev tries : ℕ → Item → ℕ
tries limit it = if ltb it.attempts limit then limit - it.attempts else 1

abbrev active_tries : ℕ → Option ActiveAttempt → ℕ
active_tries limit none = 0
active_tries limit (some a) = tries limit a.item

abbrev pub work : Scheduler → ℕ
work s = total (tries s.max_attempts) s.scheduled_items + active_tries s.max_attempts s.active_item

abbrev pub is_enqueue : Call → Bool
is_enqueue (Call.call_enqueue_at _ _ _ _) = true
is_enqueue _ = false

abbrev pub is_limit : Call → Bool
is_limit (Call.call_max_attempts _) = true
is_limit _ = false

-- What the message being sent may take; the work is split at it.
active_work :
    (s : Scheduler) (a : ActiveAttempt)
    → s.active_item ≡ some a
    → work s ≡ total (tries s.max_attempts) s.scheduled_items + tries s.max_attempts a.item
active_work s a e = rw e refl

idle_work :
    (s : Scheduler) → s.active_item ≡ none → work s ≡ total (tries s.max_attempts) s.scheduled_items
idle_work s e = rw e (omega arith)

-- An attempt that may be repeated leaves one less.
tries_next :
    (limit : ℕ) (it : Item)
    → limit < 256
    → (next_attempt it).attempts < limit
    → worn it ≡ false
    → suc (tries limit (next_attempt it)) ≡ tries limit it
tries_next limit it m l w = ground arith

tries_positive : (limit : ℕ) (it : Item) → 1 ≤ tries limit it
tries_positive limit it = ground arith

logged_work : (e : ProtocolEvent) (s : Scheduler) → work (log e s) ≡ work s
unfolding log
logged_work e s = refl

logged_limit : (e : ProtocolEvent) (s : Scheduler) → (log e s).max_attempts ≡ s.max_attempts
unfolding log
logged_limit e s = refl

released_limit : (s : Scheduler) → (release s).max_attempts ≡ s.max_attempts
unfolding release
released_limit s = refl

released_work : (s : Scheduler) → work (release s) ≡ total (tries s.max_attempts) s.scheduled_items
unfolding release
released_work s = omega arith

-- What starting an item leaves, whether or not the handler takes its message.
pub start_item_effect :
    (t : ℕ) (it : Item) (s : Scheduler) (h : Handler)
    → let s' = (start_item t it (s, h)).0 in
      (s'.max_attempts ≡ s.max_attempts)
      × (s'.scheduled_items ≡ s.scheduled_items)
      × (s'.active_item ≡ some (record { item = it; start_time = t; session_id = it.session_id }))
unfolding start_item log
start_item_effect t it s h = elim (Bool-cases (send_active_message it.message.sequence h).1) [
  | inl e ↦ rw e (refl, refl, refl)
  | inr e ↦ rw e (refl, refl, refl)
]

times_if : (m k : ℕ) (b : Bool) → m * ((if b then 1 else 0) + k) ≡ (if b then m else 0) + m * k
times_if m k true = grind arith
times_if m k false = omega arith

-- What a run of the calls pays.
module _ (heap : HeapOps compare_items) where
  -- The call ends the attempt that is under way.
  unfoldable pub ends_attempt : Call → Node → Bool
  ends_attempt (Call.call_inject event now) n =
      (inject_protocol_event heap event now n).1 && not (is_won_event event.kind)
  ends_attempt _ n = false

  unfoldable pub attempts_ended : List Call → Node → ℕ
  attempts_ended [] n = 0
  attempts_ended (c ∷ cs) n =
      (if ends_attempt c n then 1 else 0) + attempts_ended cs (step heap c n)

  pushed_work :
      (f : Item → ℕ) (it : Item) (items : List Item)
      → IsQueue items
      → total f (heap.push_heap (StaticVector.push_back max_items it items).0)
        ≤ f it + total f items
  pushed_work f it items q =
      let worn_count = total-Perm f ((push-Pushed heap it items q).kept) in
      elim (Bool-cases (room items)) [
        | inl e ↦ ground (arith, rw e at worn_count)
        | inr e ↦ ground (arith, rw e at worn_count)
      ]

  work-reschedule :
      (now : ℕ) (it : Item) (s : Scheduler)
      → IsQueue s.scheduled_items
      → work (reschedule heap now it s)
        ≤ tries s.max_attempts it + total (tries s.max_attempts) s.scheduled_items
  unfolding reschedule release
  work-reschedule now it s q =
      let it' = record it { due = now + backoff_duration it.attempts s } in
      omega (arith, pushed_work (tries s.max_attempts) it' s.scheduled_items q)

  reschedule_limit :
      (now : ℕ) (it : Item) (s : Scheduler)
      → (reschedule heap now it s).max_attempts ≡ s.max_attempts
  unfolding reschedule release
  reschedule_limit now it s = refl

  started_work :
      (t : ℕ) (first : Item) (rest : List Item) (s : Scheduler) (h : Handler)
      → IsQueue (first ∷ rest)
      → let s' =
          (start_item t (pop_item heap first rest s).0 ((pop_item heap first rest s).1, h)).0 in
        (s'.max_attempts ≡ s.max_attempts) × (work s' ≡ total (tries s.max_attempts) (first ∷ rest))
  unfolding pop_item
  started_work t first rest s h q =
      let popped = pop_item-Popped heap first rest s q in
      let p = pop_item heap first rest s in
      let (limit, items, active) = start_item_effect t p.0 p.1 h in
      let rest_work = total-Perm (tries s.max_attempts) popped.rest_kept in
      let first_work = ap (tries s.max_attempts) popped.item in
      (limit, rw (limit, items, active) (omega (arith, rest_work, first_work)))

  -- One call: what it ends and leaves to do is at most what there was to do and what it adds.
  abbrev Paid : Call → Scheduler → Bool → Scheduler → Type 0
  Paid c s ended s' =
      (s'.max_attempts ≡ s.max_attempts)
      × ((if ended then 1 else 0) + work s' ≤ work s + (if is_enqueue c then s.max_attempts else 0))

  Injected-Paid :
      (event : ProtocolEvent) (now : ℕ) (s : Scheduler) (h : Handler) (r : Node × Bool)
      → IsValid s
      → Injected heap s h event now r
      → Paid (Call.call_inject event now) s (r.1 && not (is_won_event event.kind)) r.0.0
  Injected-Paid event now s h r v (Injected.nothing_active e) = (refl, omega arith)
  Injected-Paid event now s h r v (Injected.other_session a e o) = (refl, omega arith)
  Injected-Paid event now s h r v (Injected.arbitration_won a e w) = (refl, rw w (omega arith))
  Injected-Paid event now s h r v (Injected.retried a e (f, n, l)) =
      let (w, _, _) = subst (λ o. IsCurrent o s.current_session_id) e v.current in
      let fewer = tries_next s.max_attempts a.item v.tries_fit l w in
      let left = work-reschedule now (next_attempt a.item) s v.queue in
      (reschedule_limit now (next_attempt a.item) s, ground (arith, active_work s a e))
  Injected-Paid event now s h r v (Injected.ended a e w) = (
    released_limit s,
    ground (arith, active_work s a e, released_work s, tries_positive s.max_attempts a.item),
  )

  Ticked-Paid :
      (now t : ℕ) (s : Scheduler) (h : Handler) (r : Node × Bool)
      → IsValid s
      → Ticked heap s h now t r
      → Paid (Call.call_tick now t) s false r.0.0
  Ticked-Paid now t s h r v Ticked.waited = (refl, omega arith)
  Ticked-Paid now t s h r v (Ticked.expired a e) =
      (logged_limit (timeout_event a h) s, omega (arith, logged_work (timeout_event a h) s))
  Ticked-Paid now t s h r v (Ticked.started first rest e (n, d, f)) =
      let (limit, left) = started_work t first rest s h (subst IsQueue e v.queue) in
      let before : total (tries s.max_attempts) s.scheduled_items
          ≡ total (tries s.max_attempts) (first ∷ rest) =
        ap (total (tries s.max_attempts)) e in
      (limit, omega (arith, idle_work s n))

  enqueue_at-Paid :
      (priority : ℕ) (message : List ℕ) (when poll_id : ℕ) (s : Scheduler)
      → IsValid s
      → Paid
          (Call.call_enqueue_at priority message when poll_id)
          s
          false
          (enqueue_at heap priority message when poll_id s).0
  unfolding enqueue_at push_item
  enqueue_at-Paid priority message when poll_id s v =
      let it : Item = record {
        priority = priority;
        due = when;
        session_id = s.next_session_id;
        poll_id = poll_id;
        attempts = 0;
        message = of_bytes message;
      } in
      let more = pushed_work (tries s.max_attempts) it s.scheduled_items v.queue in
      let new : tries s.max_attempts it ≤ s.max_attempts = ground (arith, v.tries) in
      elim (Bool-cases (leb max_items (length s.scheduled_items))) [
        | inl e ↦ rw e (refl, omega arith)
        | inr e ↦ rw e (refl, omega (arith, rw e at more))
      ]

  settle-Paid :
      (c : Setting) (s : Scheduler) (h : Handler)
      → Paid (Call.call_setting c) s false (settle c (s, h))
  settle-Paid c s h =
      let (items, limit, active, _) = settle-Unchanged c s h in
      (limit, rw (items, limit, active) (omega arith))

  step-Paid :
      (c : Call) (s : Scheduler) (h : Handler)
      → is_limit c ≡ false
      → IsValid s
      → Paid c s (ends_attempt c (s, h)) (step heap c (s, h)).0
  unfolding step ends_attempt clear stop
  step-Paid (Call.call_setting c) s h l v = settle-Paid c s h
  step-Paid (Call.call_max_attempts n) s h l v = absurd (ground arith)
  step-Paid Call.call_clear s h l v = (refl, omega arith)
  step-Paid Call.call_stop s h l v = (refl, omega arith)
  step-Paid (Call.call_enqueue_at priority message when poll_id) s h l v =
      enqueue_at-Paid priority message when poll_id s v
  step-Paid (Call.call_tick now t) s h l v = Ticked-Paid now t s h _ v (tick-Ticked heap s h now t)
  step-Paid (Call.call_inject event now) s h l v =
      Injected-Paid event now s h _ v (inject-Injected heap s h event now)

  -- Over any list of calls without a change of the maximum of attempts, the attempts that end and the
  -- work that is left are together at most the work at the start and the maximum for each message
  -- enqueued. The work of a message is the number of attempts it may still take.
  pub run_paid :
      (cs : List Call) (s : Scheduler) (h : Handler)
      → IsValid s
      → count is_limit cs ≡ 0
      → attempts_ended cs (s, h) + work (run heap cs (s, h)).0
        ≤ work s + s.max_attempts * count is_enqueue cs
  unfolding run attempts_ended
  run_paid [] s h v l = omega arith
  run_paid (c ∷ cs) s h v l =
      let (limit, paid) = step-Paid c s h (ground arith) v in
      let n = step heap c (s, h) in
      let later = run_paid cs n.0 n.1 (step-IsValid heap c s h v) (omega arith) in
      let same : n.0.max_attempts * count is_enqueue cs ≡ s.max_attempts * count is_enqueue cs =
        ap (λ m. m * count is_enqueue cs) limit in
      omega (arith, paid, times_if s.max_attempts (count is_enqueue cs) (is_enqueue c), later)
