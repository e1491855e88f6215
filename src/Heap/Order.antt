-- ===== src/Heap/Order.antt =====
-- The front of a heap is the element that comes out first.
use ebus.Base.{
  ==_iff, Bool, Bool-cases, List, [], arith, false, get_or, inl, inr, length, length-Perm, refl,
  suc, take_last, zero, ℕ, ◌++◌, ◌-◌, ◌/◌, ◌<◌, ◌==◌, ◌∙◌, ◌∷◌, ◌≡◌,
}
use ebus.Heap.{HeapOps, IsHeap, IsStrictWeak}
use ebus.StaticVector
use mathlib.Core.List.Perm
use mathlib.Core.List.{Perm, perm_append_singleton}

front_below :
    {A : Type 0} {less : A → A → Bool}
    → IsStrictWeak less
    → (k : ℕ) (d : A) (xs : List A) (i : ℕ) → IsHeap less xs
    → 0 < i
    → i < k
    → i < length xs
    → less (get_or xs 0 d) (get_or xs i d) ≡ false
front_below o zero d xs i h p l m = absurd (omega arith)
front_below {less} o (suc k) d xs i h p l m =
    let parent = (i - 1) / 2 in
    elim (Bool-cases (parent == 0)) [
      | inl e ↦ let z : parent ≡ 0 = (==_iff parent 0).0 e in rw z at (h d i p m)
      | inr e ↦
          o.transitive (get_or xs 0 d) (get_or xs parent d) (get_or xs i d)
            (front_below o k d xs parent h (ground arith) (omega arith) (omega arith)) (h d i p m)
    ]

-- No element of a heap comes out before the front.
pub IsHeap-front :
    {A : Type 0} {less : A → A → Bool}
    → IsStrictWeak less
    → (d : A) (xs : List A) (i : ℕ) → IsHeap less xs
    → i < length xs
    → less (get_or xs 0 d) (get_or xs i d) ≡ false
IsHeap-front {less} o d xs zero h m =
    let x = get_or xs 0 d in elim (Bool-cases (less x x)) [ inl e ↦ o.asymmetric x x e | inr e ↦ e ]
IsHeap-front o d xs (suc i) h m =
    front_below o (suc (suc i)) d xs (suc i) h (omega arith) (omega arith) m

-- What a vector holds after `pop_heap`: the rest as a heap, then the element that was in front.
module _ {A : Type 0} {less : A → A → Bool} (heap : HeapOps less) (x : A) (xs : List A)
    (h : IsHeap less (x ∷ xs)) where
  popped_length : length (heap.pop_heap (x ∷ xs)) ≡ suc (length xs)
  popped_length = length-Perm (heap.pop_heap-Perm x xs h)

  popped_last : length (heap.pop_heap (x ∷ xs)) - 1 ≡ length xs
  popped_last = omega (arith, popped_length)

  pub back-pop_heap : StaticVector.back x (heap.pop_heap (x ∷ xs)) ≡ x
  back-pop_heap = rw popped_last (heap.pop_heap_last x x xs h)

  pub pop_back-pop_heap-IsHeap : IsHeap less (StaticVector.pop_back (heap.pop_heap (x ∷ xs)))
  pop_back-pop_heap-IsHeap = rw popped_last (heap.pop_heap-IsHeap x xs h)

  pub pop_back-pop_heap-Perm : Perm (StaticVector.pop_back (heap.pop_heap (x ∷ xs))) xs
  pop_back-pop_heap-Perm =
      let popped = heap.pop_heap (x ∷ xs) in
      let rest = StaticVector.pop_back popped in
      let split : popped ≡ rest ++ x ∷ [] =
        rw popped_last
          (take_last (length xs) popped x popped_length ∙ rw (heap.pop_heap_last x x xs h) refl) in
      Perm.cons_inv (
        Perm.trans (Perm.symm (perm_append_singleton x rest))
          (rw split at (heap.pop_heap-Perm x xs h)))
