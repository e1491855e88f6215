-- ===== src/PollManager/Due.antt =====
-- What `processDueItems` of src/ebus/app/poll_manager.cpp does while the clock stands still and the
-- scheduler takes every message.
use ebus.Base.{
  Bool, List, Option, arith, false, if◌then◌else◌, leb, map, none, some, true, ℕ, ◌++◌, ◌∷◌, ◌≡◌,
}
use ebus.Heap.{IsHeap}
use ebus.PollManager.{Item, PollManager, due_again, greater}
use ebus.StaticVector
use mathlib.Core.List.Perm
use mathlib.Core.List.{Perm, filter_map}

abbrev pub is_due : ℕ → Item → Bool
is_due now it = leb it.next_due now

-- An item that was due comes again after its interval.
abbrev pub renewed : ℕ → Item → Item
renewed now it = if is_due now it then record it { next_due = due_again now it } else it

abbrev pub pick : ℕ → Item → Option Item
pick now it = if is_due now it then some it else none

-- The items that are due, in their order.
unfoldable pub due_items : ℕ → List Item → List Item
unfolding filter_map
due_items now items = filter_map (pick now) items

-- The item that comes again is not due.
renewed-again : (now : ℕ) (it : Item) → is_due now it ≡ true → is_due now (renewed now it) ≡ false
renewed-again now it e = ground arith

-- What the body of the loop does to a heap that has room for its items: the first one comes again.
record Fired (now : ℕ) (first : Item) (rest : List Item) (r : PollManager × Item) : Type 0 where
  item : r.1 ≡ first
  queue : IsHeap greater r.0.items
  kept : Perm r.0.items (record first { next_due = due_again now first } ∷ rest)

-- The loop has ended, and left the heap behind with the items that were due put off, each of which has
-- gone to the callback.
pub record Drained (now : ℕ) (called items : List Item) (r : PollManager × List Item × Bool)
    : Type 0 where
  pub ended : r.2 ≡ true
  pub queue : IsHeap greater r.0.items
  pub kept : Perm r.0.items (map (renewed now) items)
  pub given : Perm r.1 (called ++ due_items now items)
