-- ===== src/Scheduler/Invariant.antt =====
-- What every call on the scheduler of src/ebus/app/scheduler.cpp keeps true of its state.
use ebus.Base.{
  Bool, Bool-cases, List, Option, [], arith, count, false, if◌then◌else◌, inl, inr, leb, length,
  length-Perm, ltb, none, refl, some, subst, sym, total-Perm, ℕ, ◌*◌, ◌-◌, ◌<◌, ◌∷◌, ◌≡◌, ◌≤◌,
}
use ebus.Handler.{Handler, send_active_message}
use ebus.Scheduler.Tick.{fail_event, pop_item, start_item, timeout_event, watch_item}
use ebus.Heap.{HeapOps}
use ebus.Scheduler.{
  initial, ActiveAttempt, Item, ProtocolEvent, Scheduler, compare_items, log, max_items, push_item,
}
use ebus.Scheduler.Queue.{IsQueue, push-Pushed, room, pop_item-Popped}
use ebus.StaticVector

-- One more attempt does not fit the item's counter, a byte.
abbrev pub worn : Item → Bool
worn it = leb 255 it.attempts

-- The message being sent is the one that the current session id names.
abbrev pub IsCurrent : Option ActiveAttempt → ℕ → Type 0
IsCurrent none session_id = Unit {0}
IsCurrent (some a) session_id =
    (worn a.item ≡ false) × (a.session_id ≡ a.item.session_id) × (a.session_id ≡ session_id)

pub record IsValid (s : Scheduler) : Type 0 where
  pub queue : IsQueue s.scheduled_items
  pub bounded : length s.scheduled_items ≤ max_items
  pub tries : 0 < s.max_attempts
  pub tries_fit : s.max_attempts < 256
  pub fresh : count worn s.scheduled_items ≡ 0
  pub current : IsCurrent s.active_item s.current_session_id

pub nothing_queued : IsQueue []
nothing_queued d c p l = absurd (omega arith)

pub initial-IsValid : IsValid initial
initial-IsValid = record {
  queue = nothing_queued;
  bounded = omega arith;
  tries = omega arith;
  tries_fit = omega arith;
  fresh = refl;
  current = tt;
}

pub log-IsValid : (e : ProtocolEvent) (s : Scheduler) → IsValid s → IsValid (log e s)
unfolding log
log-IsValid e s v = record {
  queue = v.queue;
  bounded = v.bounded;
  tries = v.tries;
  tries_fit = v.tries_fit;
  fresh = v.fresh;
  current = v.current;
}

module _ (heap : HeapOps compare_items) where
  -- A queue that takes an item in, if it has room.
  pub push-kept :
      (it : Item) (items : List Item)
      → let items' = heap.push_heap (StaticVector.push_back max_items it items).0 in
        IsQueue items
        → length items ≤ max_items
        → count worn items ≡ 0
        → worn it ≡ false
        → IsQueue items' × (length items' ≤ max_items) × (count worn items' ≡ 0)
  push-kept it items q b f w =
      let pushed = push-Pushed heap it items q in
      let size = length-Perm pushed.kept in
      let worn_count = total-Perm (λ x. if worn x then 1 else 0) pushed.kept in
      elim (Bool-cases (room items)) [
        | inl e ↦ (pushed.queue, ground (arith, rw e at size), ground (arith, rw e at worn_count))
        | inr e ↦ (pushed.queue, ground (arith, rw e at size), ground (arith, rw e at worn_count))
      ]

  pub push_item-IsValid :
      (it : Item) (s : Scheduler) → IsValid s → worn it ≡ false → IsValid (push_item heap it s).0
  unfolding push_item
  push_item-IsValid it s v w =
      let kept = push-kept it s.scheduled_items v.queue v.bounded v.fresh w in
      elim (Bool-cases (leb max_items (length s.scheduled_items))) [
        | inl e ↦ rw e v
        | inr e ↦ rw e (record {
          queue = rw e at kept.0;
          bounded = rw e at kept.1;
          tries = v.tries;
          tries_fit = v.tries_fit;
          fresh = rw e at kept.2;
          current = v.current;
        })
      ]

  pub pop_item-IsValid :
      (first : Item) (rest : List Item) (s : Scheduler)
      → s.scheduled_items ≡ first ∷ rest
      → IsValid s
      → (t : ℕ)
      → let p = pop_item heap first rest s in
        IsValid (record p.1 {
          active_item = some (record { item = p.0; start_time = t; session_id = p.0.session_id });
        })
  unfolding pop_item
  pop_item-IsValid first rest s e v t =
      let queue = subst IsQueue e v.queue in
      let popped = pop_item-Popped heap first rest s queue in
      let size = length-Perm popped.rest_kept in
      let worn_count = total-Perm (λ x. if worn x then 1 else 0) popped.rest_kept in
      let old_size : length (first ∷ rest) ≤ max_items =
        subst (λ xs. length xs ≤ max_items) e v.bounded in
      let old_count : count worn (first ∷ rest) ≡ 0 = subst (λ xs. count worn xs ≡ 0) e v.fresh in
      let item_worn : worn first ≡ false = ground arith in
      record {
        queue = popped.queue;
        bounded = omega (arith, size);
        tries = v.tries;
        tries_fit = v.tries_fit;
        fresh = omega (arith, worn_count);
        current = (subst (λ x. worn x ≡ false) (sym popped.item) item_worn, refl, refl);
      }

  pub watch_item-IsValid :
      (now : ℕ) (a : ActiveAttempt) (s : Scheduler) (h : Handler)
      → IsValid s
      → IsValid (watch_item now a (s, h)).0.0
  unfolding watch_item
  watch_item-IsValid now a s h v =
      elim (Bool-cases (ltb (s.total_timeout * 1000) (now - a.start_time))) [
        | inl e ↦ rw e (log-IsValid (timeout_event a h) s v)
        | inr e ↦ rw e v
      ]

  pub start_item-IsValid :
      (t : ℕ) (it : Item) (s : Scheduler) (h : Handler)
      → IsValid (record s {
        active_item = some (record { item = it; start_time = t; session_id = it.session_id });
      })
      → IsValid (start_item t it (s, h)).0
  unfolding start_item
  start_item-IsValid t it s h v = elim (Bool-cases (send_active_message it.message.sequence h).1) [
    | inl e ↦ rw e v
    | inr e ↦ rw e (
        log-IsValid (fail_event it (send_active_message it.message.sequence h).0)
          (record s {
            active_item = some (record { item = it; start_time = t; session_id = it.session_id });
          })
          v)
  ]
