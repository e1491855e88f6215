-- ===== src/Scheduler/Injected.antt =====
-- The ways `injectProtocolEvent` and `tick` of src/ebus/app/scheduler.cpp can end, as step relations.
use ebus.Base.{
  Bool, Bool-cases, List, Option-cases, [], arith, false, inl, inr, leb, leb→le, ltb, none, not,
  refl, some, true, ℕ, ◌%◌, ◌&&◌, ◌*◌, ◌+◌, ◌-◌, ◌<◌, ◌==◌, ◌∷◌, ◌≡◌, ◌≢◌, ◌≤◌,
}
use ebus.Handler
use ebus.Handler.{Handler, total_attempts, update_handler}
use ebus.Heap.{HeapOps}
use ebus.Scheduler.{ActiveAttempt, Item, ProtocolEvent, Scheduler, compare_items, log}
use ebus.Scheduler.Tick.{
  Node, inject_active, is_failure, is_fatal, is_won_event, pop_item, release, reschedule, start_due,
  start_item, timeout_event, inject_protocol_event, tick, watch_item,
}

-- The message being sent with one attempt more.
abbrev pub next_attempt : Item → Item
next_attempt it = record it { attempts = (it.attempts + 1) % 256 }

retry_conditions :
    (failed fatal : Bool) (attempts limit : ℕ)
    → (failed && (not fatal && ltb attempts limit)) ≡ true
    → (failed ≡ true) × (fatal ≡ false) × attempts < limit
retry_conditions failed fatal attempts limit h = ground arith

module _ (heap : HeapOps compare_items) (s : Scheduler) (h : Handler) where
  pub data Injected (event : ProtocolEvent) (now : ℕ) : Node × Bool → Type 0 where
    nothing_active : s.active_item ≡ none → Injected event now ((s, h), false)
    other_session :
        (a : ActiveAttempt)
        → s.active_item ≡ some a
        → event.session_id ≢ a.session_id
        → Injected event now ((s, h), false)
    arbitration_won :
        (a : ActiveAttempt)
        → s.active_item ≡ some a
        → is_won_event event.kind ≡ true
        → Injected event now ((s, h), true)
    retried :
        (a : ActiveAttempt)
        → s.active_item ≡ some a
        → (is_failure event.kind ≡ true)
          × (is_fatal event ≡ false)
          × (next_attempt a.item).attempts < s.max_attempts
        → Injected event now
            ((reschedule heap now (next_attempt a.item) s, update_handler total_attempts h), true)
    ended :
        (a : ActiveAttempt)
        → s.active_item ≡ some a
        → is_won_event event.kind ≡ false
        → Injected event now ((release s, h), true)

  inject_active-Injected :
      (event : ProtocolEvent) (now : ℕ) (a : ActiveAttempt)
      → s.active_item ≡ some a
      → Injected event now (inject_active heap event now a (s, h))
  unfolding inject_active
  inject_active-Injected event now a e =
      let attempts = (next_attempt a.item).attempts in
      let failed = is_failure event.kind in
      elim (Bool-cases (event.session_id == a.session_id)) [
        | inr other ↦ simp other (Injected.other_session a e (ground arith))
        | inl mine ↦ elim (Bool-cases (is_won_event event.kind)) [
          | inl w ↦ simp (mine, w) (Injected.arbitration_won a e w)
          | inr w ↦
              elim (Bool-cases (failed && (not (is_fatal event) && ltb attempts s.max_attempts))) [
                | inl r ↦
                    let conditions =
                      retry_conditions failed (is_fatal event) attempts s.max_attempts r in
                    simp (mine, w, r) (Injected.retried a e conditions)
                | inr r ↦ simp (mine, w, r) (Injected.ended a e w)
              ]
        ]
      ]

  pub inject-Injected :
      (event : ProtocolEvent) (now : ℕ)
      → Injected event now (inject_protocol_event heap event now (s, h))
  unfolding inject_protocol_event
  inject-Injected event now = elim (Option-cases s.active_item) [
    | inl e ↦ simp e (Injected.nothing_active e)
    | inr (a, e) ↦ simp e (inject_active-Injected event now a e)
  ]

  pub data Ticked (now start_time : ℕ) : Node × Bool → Type 0 where
    waited : Ticked now start_time ((s, h), false)
    expired :
        (a : ActiveAttempt)
        → s.active_item ≡ some a
        → Ticked now start_time ((log (timeout_event a h) s, Handler.reset h), true)
    started :
        (first : Item) (rest : List Item)
        → s.scheduled_items ≡ first ∷ rest
        → (s.active_item ≡ none) × (first.due ≤ now) × (h.active_message ≡ false)
        → Ticked now start_time (
          start_item start_time (pop_item heap first rest s).0 ((pop_item heap first rest s).1, h),
          true,
        )

  start_due-Ticked :
      (now start_time : ℕ) (items : List Item)
      → s.active_item ≡ none
      → s.scheduled_items ≡ items
      → Ticked now start_time (start_due heap now start_time items (s, h))
  unfolding start_due
  start_due-Ticked now start_time [] n e = Ticked.waited
  start_due-Ticked now start_time (first ∷ rest) n e = elim (Bool-cases (leb first.due now)) [
    | inr due ↦ simp due Ticked.waited
    | inl due ↦ elim (Bool-cases h.active_message) [
      | inl busy ↦ simp (due, busy) Ticked.waited
      | inr free ↦
          simp (due, free) (Ticked.started first rest e (n, leb→le first.due now due, free))
    ]
  ]

  watch_item-Ticked :
      (now start_time : ℕ) (a : ActiveAttempt)
      → s.active_item ≡ some a
      → Ticked now start_time (watch_item now a (s, h))
  unfolding watch_item
  watch_item-Ticked now start_time a e =
      elim (Bool-cases (ltb (s.total_timeout * 1000) (now - a.start_time))) [
        | inl late ↦ simp late (Ticked.expired a e)
        | inr early ↦ simp early Ticked.waited
      ]

  pub tick-Ticked : (now start_time : ℕ) → Ticked now start_time (tick heap now start_time (s, h))
  unfolding tick
  tick-Ticked now start_time = elim (Option-cases s.active_item) [
    | inl e ↦ simp e (start_due-Ticked now start_time s.scheduled_items e refl)
    | inr (a, e) ↦ simp e (watch_item-Ticked now start_time a e)
  ]
