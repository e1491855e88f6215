-- ===== src/Heap.antt =====
-- std::push_heap and std::pop_heap of <algorithm>, which src/ebus/app/scheduler.cpp and poll_manager.cpp
-- call: an interface with what the C++ standard says of them. The machines that use a heap take it as a
-- parameter; the child Sorted has one.
pub mod Order
pub mod Sorted
use ebus.Base.{Bool, List, [], false, get_or, length, take, true, ℕ, ◌++◌, ◌-◌, ◌/◌, ◌<◌, ◌∷◌, ◌≡◌}
use mathlib.Core.List.{Perm}

-- `comp` of the standard: `less a b` is true where `b` is to come out before `a`. A comparison is a
-- strict weak order if it is asymmetric and what it does not order is transitive.
pub record IsStrictWeak {A : Type 0} (less : A → A → Bool) : Type 0 where
  pub asymmetric : (a b : A) → less a b ≡ true → less b a ≡ false
  pub transitive : (a b c : A) → less a b ≡ false → less b c ≡ false → less a c ≡ false

-- No element comes out before its parent. The default is never read.
abbrev pub IsHeap : {A : Type 0} → (A → A → Bool) → List A → Type 0
IsHeap {A} less xs =
    (d : A) (c : ℕ)
    → 0 < c
    → c < length xs
    → less (get_or xs ((c - 1) / 2) d) (get_or xs c d) ≡ false

-- `push_heap` takes the last element into the heap in front of it; `pop_heap` moves the first element
-- of a heap to its end, behind a heap of the others.
pub record HeapOps {A : Type 0} (less : A → A → Bool) : Type 0 where
  pub push_heap : List A → List A
  pub pop_heap : List A → List A
  pub push_heap-Perm :
      (x : A) (xs : List A) → IsHeap less xs → Perm (push_heap (xs ++ x ∷ [])) (x ∷ xs)
  pub push_heap-IsHeap :
      (x : A) (xs : List A) → IsHeap less xs → IsHeap less (push_heap (xs ++ x ∷ []))
  pub pop_heap-Perm :
      (x : A) (xs : List A) → IsHeap less (x ∷ xs) → Perm (pop_heap (x ∷ xs)) (x ∷ xs)
  pub pop_heap-IsHeap :
      (x : A) (xs : List A)
      → IsHeap less (x ∷ xs)
      → IsHeap less (take (length xs) (pop_heap (x ∷ xs)))
  pub pop_heap_last :
      (d x : A) (xs : List A) → IsHeap less (x ∷ xs) → get_or (pop_heap (x ∷ xs)) (length xs) d ≡ x
