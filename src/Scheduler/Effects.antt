-- ===== src/Scheduler/Effects.antt =====
-- What a call on the scheduler of src/ebus/app/scheduler.cpp does to the messages it holds.
use ebus.Base.{
  Bool, Bool-cases, List, ap, arith, false, get_or, if◌then◌else◌, inl, inr, leb, length, none,
  refl, some, subst, suc, true, ℕ, ◌%◌, ◌+◌, ◌<◌, ◌==◌, ◌^◌, ◌∙◌, ◌∷◌, ◌≡◌, ◌≤◌, ◌⊎◌,
}
use ebus.Handler.{Handler}
use ebus.Heap.{HeapOps}
use ebus.Heap.Order.{IsHeap-front}
use ebus.Scheduler.{
  ActiveAttempt, Item, Scheduler, compare_items, backoff_duration, enqueue_at, max_items, push_item,
}
use ebus.Scheduler.Attempts.{start_item_effect}
use ebus.Scheduler.Injected.{Ticked, tick-Ticked}
use ebus.Scheduler.Invariant.{IsValid, IsCurrent}
use ebus.Scheduler.Order.{compare_items-IsStrictWeak}
use ebus.Scheduler.Queue.{IsQueue, pop_item-Popped, push-Pushed, room}
use ebus.Scheduler.Tick.{
  Node, pop_item, start_item, tick, inject_active, inject_protocol_event, release, reschedule,
}
use ebus.Scheduler.Callbacks.{ProtocolInfo, event_of}
use ebus.Telegram.{of_bytes}
use mathlib.Core.List.{Perm}

-- The item that a start sends is due, no item behind it is to be sent before it, and the queue is
-- left without it.
pub record Started (now start_time : ℕ) (s s' : Scheduler) : Type 0 where
  pub first : Item
  pub rest : List Item
  pub queued : s.scheduled_items ≡ first ∷ rest
  pub due : first.due ≤ now
  pub earliest :
      (d : Item) (i : ℕ) → i < length rest → compare_items first (get_or rest i d) ≡ false
  pub left : Perm s'.scheduled_items rest
  pub active :
      s'.active_item
      ≡ some (record { item = first; start_time = start_time; session_id = first.session_id })

-- What `enqueue_at` builds.
abbrev pub new_item : ℕ → List ℕ → ℕ → ℕ → Scheduler → Item
new_item priority message when poll_id s = record {
  priority = priority;
  due = when;
  session_id = s.next_session_id;
  poll_id = poll_id;
  attempts = 0;
  message = of_bytes message;
}

module _ (heap : HeapOps compare_items) where
  start_item-Started :
      (now t : ℕ) (first : Item) (rest : List Item) (s : Scheduler) (h : Handler)
      → IsQueue s.scheduled_items
      → s.scheduled_items ≡ first ∷ rest
      → first.due ≤ now
      → Started now t s
          (start_item t (pop_item heap first rest s).0 ((pop_item heap first rest s).1, h)).0
  unfolding pop_item
  start_item-Started now t first rest s h q e d =
      let queue = subst IsQueue e q in
      let popped = pop_item-Popped heap first rest s queue in
      let p = pop_item heap first rest s in
      let (limit, items, active) = start_item_effect t p.0 p.1 h in
      record {
        first = first;
        rest = rest;
        queued = e;
        due = d;
        earliest = λ x i l.
            IsHeap-front compare_items-IsStrictWeak x (first ∷ rest) (suc i) queue (omega arith);
        left = rw items popped.rest_kept;
        active =
            active
            ∙ ap (λ x. some (record { item = x; start_time = t; session_id = x.session_id }))
                popped.item;
      }

  Ticked-Started :
      (now t : ℕ) (s : Scheduler) (h : Handler) (r : Node × Bool)
      → IsQueue s.scheduled_items
      → s.active_item ≡ none
      → r.1 ≡ true
      → Ticked heap s h now t r
      → Started now t s r.0.0
  Ticked-Started now t s h r q n y Ticked.waited = absurd (ground arith)
  Ticked-Started now t s h r q n y (Ticked.expired a e) = absurd (grind (arith, e, n))
  Ticked-Started now t s h r q n y (Ticked.started first rest e (_, d, _)) =
      start_item-Started now t first rest s h q e d

  -- Where nothing is being sent and `tick` reports activity, it has started the item that is due and
  -- that no other item of the queue is to be sent before.
  pub tick-Started :
      (now t : ℕ) (s : Scheduler) (h : Handler)
      → IsValid s
      → s.active_item ≡ none
      → (tick heap now t (s, h)).1 ≡ true
      → Started now t s (tick heap now t (s, h)).0.0
  tick-Started now t s h v n y = Ticked-Started now t s h _ v.queue n y (tick-Ticked heap s h now t)

  -- `enqueue_at` takes the new item into a queue with room and returns its session id; a full queue
  -- stays as it is and the id is 0. Either way the next session id moves on.
  pub enqueue_at_effect :
      (priority : ℕ) (message : List ℕ) (when poll_id : ℕ) (s : Scheduler)
      → IsValid s
      → let (s', id) = enqueue_at heap priority message when poll_id s in
        let it = new_item priority message when poll_id s in
        let accepted =
          Perm s'.scheduled_items (it ∷ s.scheduled_items) × (id ≡ s.next_session_id) in
        let refused = (s'.scheduled_items ≡ s.scheduled_items) × (id ≡ 0) in
        ((length s.scheduled_items < max_items) × accepted
          ⊎ (length s.scheduled_items ≡ max_items) × refused)
        × (s'.next_session_id ≡ (s.next_session_id + 1) % 2 ^ 32)
        × (s'.active_item ≡ s.active_item)
  unfolding enqueue_at push_item
  enqueue_at_effect priority message when poll_id s v =
      let it = new_item priority message when poll_id s in
      let kept = push-Pushed heap it s.scheduled_items v.queue in
      elim (Bool-cases (leb max_items (length s.scheduled_items))) [
        | inl e ↦ rw e (inr (ground (arith, v.bounded), (refl, refl)), refl, refl)
        | inr e ↦ rw e (inl (ground arith, (rw e at kept.kept, refl)), refl, refl)
      ]

  -- A failed message comes back into a queue that has room, due behind its backoff, and is gone if the
  -- queue is full; no event is reported.
  pub reschedule_effect :
      (now : ℕ) (it : Item) (s : Scheduler)
      → IsValid s
      → let s' = reschedule heap now it s in
        let it' = record it { due = now + backoff_duration it.attempts s } in
        Perm s'.scheduled_items
          (if room s.scheduled_items then it' ∷ s.scheduled_items else s.scheduled_items)
        × (s'.active_item ≡ none)
        × (s'.events ≡ s.events)
  unfolding reschedule release
  reschedule_effect now it s v =
      let it' = record it { due = now + backoff_duration it.attempts s } in
      let kept = push-Pushed heap it' s.scheduled_items v.queue in (kept.kept, refl, refl)

  -- The event made of any telegram that the handler reports ends the message being sent.
  pub telegram_ends :
      (info : ProtocolInfo) (now : ℕ) (s : Scheduler) (h : Handler) (a : ActiveAttempt)
      → IsValid s
      → info.is_error ≡ false
      → s.active_item ≡ some a
      → inject_protocol_event heap (event_of info s) now (s, h) ≡ ((release s, h), true)
  unfolding inject_protocol_event inject_active
  telegram_ends info now s h a v t e =
      let (_, _, id) = subst (λ o. IsCurrent o s.current_session_id) e v.current in
      let same : (s.current_session_id == a.session_id) ≡ true = ground arith in
      simp (e, same, t) refl
