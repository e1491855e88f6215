-- ===== src/Scheduler/Queue.antt =====
-- What the operations on the queue of src/ebus/app/scheduler.cpp do to the heap and its items.
use ebus.Base.{
  Bool, Bool-cases, List, [], arith, get_or, get_or-append, if◌then◌else◌, inl, inr, leb, length,
  length-append, not, subst, sym, take, take_last, ◌++◌, ◌-◌, ◌/◌, ◌∷◌, ◌≡◌,
}
use ebus.Heap.{HeapOps, IsHeap}
use ebus.Heap.Order.{back-pop_heap, pop_back-pop_heap-IsHeap, pop_back-pop_heap-Perm}
use ebus.Scheduler.{Item, Scheduler, compare_items, max_items}
use ebus.Scheduler.Tick.{pop_item}
use ebus.StaticVector
use mathlib.Core.List.Perm
use mathlib.Core.List.{Perm, perm_append_singleton}

abbrev pub IsQueue : List Item → Type 0
IsQueue items = IsHeap compare_items items

-- The elements in front of the last one are a heap as well.
IsQueue-front : (items : List Item) (it : Item) → IsQueue (items ++ it ∷ []) → IsQueue items
IsQueue-front items it h d c p l =
    let parent = (c - 1) / 2 in
    let up = get_or-append items (it ∷ []) parent d (omega arith) in
    let low = get_or-append items (it ∷ []) c d l in
    rw (up, low) at (h d c p (omega (arith, length-append items (it ∷ []))))

-- A new item, where there is room.
abbrev pub room : List Item → Bool
room items = not (leb max_items (length items))

pub record Pushed (it : Item) (before after : List Item) : Type 0 where
  pub queue : IsQueue after
  pub kept : Perm after (if room before then it ∷ before else before)

module _ (heap : HeapOps compare_items) where
  -- The item taken out is the first one, and the rest is a queue.
  pub record Popped (first : Item) (rest : List Item) (s : Scheduler) : Type 0 where
    pub item : (pop_item heap first rest s).0 ≡ first
    pub queue : IsQueue (pop_item heap first rest s).1.scheduled_items
    pub rest_kept : Perm (pop_item heap first rest s).1.scheduled_items rest

  pub pop_item-Popped :
      (first : Item) (rest : List Item) (s : Scheduler)
      → IsQueue (first ∷ rest)
      → Popped first rest s
  unfolding pop_item
  pop_item-Popped first rest s h = record {
    item = back-pop_heap heap first rest h;
    queue = pop_back-pop_heap-IsHeap heap first rest h;
    rest_kept = pop_back-pop_heap-Perm heap first rest h;
  }

  -- `push_back` and `push_heap`, on a vector that may be full.
  pub push-Pushed :
      (it : Item) (items : List Item)
      → IsQueue items
      → Pushed it items (heap.push_heap (StaticVector.push_back max_items it items).0)
  push-Pushed it items h = elim (Bool-cases (leb max_items (length items))) [
    | inr e ↦ record {
      queue = rw e (heap.push_heap-IsHeap it items h);
      kept = rw e (heap.push_heap-Perm it items h);
    }
    | inl e ↦
        let init = take (length items - 1) items in
        let last = get_or items (length items - 1) it in
        let split : items ≡ init ++ last ∷ [] =
          take_last (length items - 1) items it (ground arith) in
        let front = IsQueue-front init last (subst IsQueue split h) in
        record {
          queue = rw e (
              subst (λ xs. IsQueue (heap.push_heap xs)) (sym split)
                (heap.push_heap-IsHeap last init front));
          kept = rw e (
              subst (λ xs. Perm (heap.push_heap xs) xs) (sym split)
                (Perm.trans (heap.push_heap-Perm last init front)
                  (Perm.symm (perm_append_singleton last init))));
        }
  ]
