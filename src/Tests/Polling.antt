-- ===== src/Tests/Polling.antt =====
-- src/ebus/app/poll_manager.cpp on concrete items.
use ebus.Base.{[], false, map, refl, ℕ, ◌∷◌, ◌≡◌}
use ebus.Heap.{HeapOps}
use ebus.Heap.Sorted.{sorted_heap}
use ebus.PollManager.Order.{greater-IsStrictWeak}
use ebus.PollManager.{Item, PollManager, greater, process_due_items, initial, remove_poll_item}
use ebus.Telegram.{of_bytes}

abbrev heap : HeapOps greater
heap = sorted_heap greater greater-IsStrictWeak

abbrev item : ℕ → ℕ → Item
item id due = record {
  poll_id = id;
  priority = 5;
  message = of_bytes (0x08 ∷ []);
  interval = 1;
  next_due = due;
}

-- Two items, of which the first is due.
abbrev two_items : PollManager
two_items = record initial { items = item 1 100 ∷ item 2 900 ∷ [] }

process_test :
    (process_due_items heap (λ _. false) (λ _. 500) 3 [] two_items).0.items
    ≡ item 2 900 ∷ item 1 1500 ∷ []
unfolding process_due_items sorted_heap
process_test = refl

-- An item is taken out of the front of a heap of seven, and the next one in front is not the next one due.
remove_test :
    map
      (λ it. it.next_due)
      (remove_poll_item 1 (record initial {
        items = item 1 1 ∷ item 2 5 ∷ item 3 2 ∷ item 4 6 ∷ item 5 7 ∷ [];
      })).items
    ≡ 5 ∷ 2 ∷ 6 ∷ 7 ∷ []
unfolding remove_poll_item
remove_test = refl
