-- ===== src/PollManager.antt =====
-- src/ebus/app/poll_manager.hpp and poll_manager.cpp: the recurring messages, a heap by the time they are
-- due. A time point is a number of microseconds, an interval one of milliseconds. The clock is what its
-- readings are, one after the other; the predicate says whether the scheduler is too busy behind the
-- messages it has been given. The JSON reader of mergeFromJson is left out.
pub mod Order
pub mod Due
use ebus.Address.{slave_of}
use ebus.Base.{
  Bool, List, Option, [], drop, false, get_or, if◌then◌else◌, leb, length, ltb, none, not, some,
  suc, take, true, zero, ℕ, ◌%◌, ◌&&◌, ◌*◌, ◌++◌, ◌+◌, ◌-◌, ◌==◌, ◌^◌, ◌∷◌, ◌||◌,
}
use ebus.Heap.{HeapOps}
use ebus.Sequence.{Sequence}
use ebus.StaticVector
use ebus.Telegram.{of_bytes}

pub record Item : Type 0 where
  pub poll_id : ℕ
  pub priority : ℕ
  pub message : Sequence
  pub interval : ℕ
  pub next_due : ℕ

-- `Item::Greater`
abbrev pub greater : Item → Item → Bool
greater lhs rhs =
    if not (lhs.next_due == rhs.next_due)
    then ltb rhs.next_due lhs.next_due
    else ltb rhs.poll_id lhs.poll_id

pub record PollManager : Type 0 where
  pub items : List Item
  pub own_address : ℕ
  pub max_item_count : ℕ
  pub next_poll_id : ℕ

abbrev pub initial : PollManager
initial = record { items = []; own_address = 0xff; max_item_count = 0; next_poll_id = 1 }

abbrev pub max_items : ℕ
max_items = 64

abbrev pub has_target : ℕ → List ℕ → Bool
has_target address message = not (length message == 0) && get_or message 0 0 == address

abbrev pub purge : ℕ → List Item → List Item
purge own_slave [] = []
purge own_slave (it ∷ items) =
    if has_target own_slave (it.message).sequence
    then purge own_slave items
    else it ∷ purge own_slave items

-- Items to the own slave address go; what is left is not made a heap again.
unfoldable pub set_own_address : ℕ → PollManager → PollManager
set_own_address address m = record m {
  own_address = address;
  items = purge (slave_of address) m.items;
}

-- `next_poll_id_++`, on 16 bits; 0 is skipped.
unfoldable pub take_poll_id : PollManager → ℕ × PollManager
take_poll_id m =
    let id = if m.next_poll_id == 0 then 1 else m.next_poll_id in
    (id, record m { next_poll_id = (id + 1) % 2 ^ 16 })

-- The time an item is due again, `now` being read behind its callback.
abbrev pub due_again : ℕ → Item → ℕ
due_again now it = let next = now + it.interval * 1000 in if leb next now then now + 1000 else next

module _ (heap : HeapOps greater) where
  -- `addPollItem`; 0 is no id.
  unfoldable pub add_poll_item : ℕ → ℕ → List ℕ → ℕ → PollManager → PollManager × ℕ
  unfolding take_poll_id
  add_poll_item now priority message interval_ms m =
      let (id, m') = take_poll_id m in
      let it : Item = record {
        poll_id = id;
        priority = priority;
        message = of_bytes message;
        interval = if interval_ms == 0 then 1 else interval_ms;
        next_due = now;
      } in
      let items = (StaticVector.push_back max_items it m.items).0 in
      if has_target (slave_of m.own_address) message
      then (m, 0)
      else if leb max_items (length m.items)
      then (m, 0)
      else (
        record m' {
          items = heap.push_heap items;
          max_item_count =
              if ltb m.max_item_count (length items) then length items else m.max_item_count;
        },
        id,
      )

  -- The body of the loop of `processDueItems`: the item that goes to the callback.
  unfoldable pub fire : ℕ → Item → List Item → PollManager → PollManager × Item
  fire now first rest m =
      let popped = heap.pop_heap (first ∷ rest) in
      let it = StaticVector.back first popped in
      let it' = record it { next_due = due_again now it } in
      (
        record m {
          items =
              heap.push_heap
                (StaticVector.push_back max_items it' (StaticVector.pop_back popped)).0;
        },
        it,
      )

  -- `processDueItems`: the items that went to the callback, in their order, and whether the loop has ended
  -- within the fuel. Reading 2 * k of the clock is the test of the round behind k callbacks, and reading
  -- 2 * k + 1 the one behind its callback.
  unfoldable pub process_due_items :
      (List Item → Bool) → (ℕ → ℕ) → ℕ → List Item → PollManager → PollManager × List Item × Bool
  unfolding fire
  process_due_items busy clock zero called m = (m, called, false)
  process_due_items busy clock (suc fuel) called m = elim m.items [
    | [] ↦ (m, called, true)
    | first ∷ rest ↦
        let reading = 2 * length called in
        let (m', it) = fire (clock (reading + 1)) first rest m in
        let later = process_due_items busy clock fuel (called ++ it ∷ []) m' in
        if leb first.next_due (clock reading) && not (busy called) then later else (m, called, true)
  ]

-- The position of the first item with the id, or that behind the end.
abbrev pub position_of : ℕ → List Item → ℕ
position_of id [] = 0
position_of id (it ∷ items) = if it.poll_id == id then 0 else position_of id items + 1

-- What is left is not made a heap again.
unfoldable pub remove_poll_item : ℕ → PollManager → PollManager
remove_poll_item id m = record m { items = StaticVector.erase (position_of id m.items) m.items }

unfoldable pub clear : PollManager → PollManager
clear m = record m { items = [] }

-- `nextDueTime`; none stands for the greatest time point.
unfoldable pub next_due_time : Bool → PollManager → Option ℕ
next_due_time busy m =
    if busy then none else elim m.items [ [] ↦ none | it ∷ items ↦ some it.next_due ]

unfoldable pub reset_peak_metrics : PollManager → PollManager
reset_peak_metrics m = record m { max_item_count = length m.items }
