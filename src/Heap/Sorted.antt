-- ===== src/Heap/Sorted.antt =====
-- A list in order is a heap, so that sorting it anew is one way to do what the standard asks for.
use ebus.Base.{
  Bool, Bool-cases, List, [], arith, false, get_or, get_or-append_end, if◌then◌else◌, inl, inr,
  length, length-Perm, suc, take, take-append, zero, ℕ, ◌++◌, ◌-◌, ◌/◌, ◌<◌, ◌∷◌, ◌≡◌,
}
use ebus.Heap.{HeapOps, IsHeap, IsStrictWeak}
use mathlib.Core.List.Perm
use mathlib.Core.List.{Perm, perm_append_singleton}

module _ {A : Type 0} (less : A → A → Bool) where
  abbrev insert : A → List A → List A
  insert x [] = x ∷ []
  insert x (y ∷ ys) = if less x y then y ∷ insert x ys else x ∷ y ∷ ys

  abbrev sort : List A → List A
  sort [] = []
  sort (x ∷ xs) = insert x (sort xs)

  abbrev Bound : A → List A → Type 0
  Bound x [] = Unit {0}
  Bound x (y ∷ ys) = (less x y ≡ false) × Bound x ys

  abbrev Descending : List A → Type 0
  Descending [] = Unit {0}
  Descending (x ∷ xs) = Bound x xs × Descending xs

  insert-Perm : (x : A) (xs : List A) → Perm (insert x xs) (x ∷ xs)
  insert-Perm x [] = Perm.refl _
  insert-Perm x (y ∷ ys) = elim (Bool-cases (less x y)) [
    | inl e ↦ rw e (Perm.trans (Perm.cons y (insert-Perm x ys)) (Perm.swap x y ys))
    | inr e ↦ rw e (Perm.refl _)
  ]

  pub sort-Perm : (xs : List A) → Perm (sort xs) xs
  sort-Perm [] = Perm.refl _
  sort-Perm (x ∷ xs) = Perm.trans (insert-Perm x (sort xs)) (Perm.cons x (sort-Perm xs))

  Bound-get :
      (x d : A) (xs : List A) (i : ℕ) → Bound x xs → i < length xs → less x (get_or xs i d) ≡ false
  Bound-get x d [] i b h = absurd (omega arith)
  Bound-get x d (y ∷ ys) zero b h = b.0
  Bound-get x d (y ∷ ys) (suc i) b h = Bound-get x d ys i b.1 (omega arith)

  Descending-get :
      (d : A) (xs : List A) (i j : ℕ)
      → Descending xs
      → i < j
      → j < length xs
      → less (get_or xs i d) (get_or xs j d) ≡ false
  Descending-get d [] i j s l h = absurd (omega arith)
  Descending-get d (x ∷ xs) i zero s l h = absurd (omega arith)
  Descending-get d (x ∷ xs) zero (suc j) s l h = Bound-get x d xs j s.0 (omega arith)
  Descending-get d (x ∷ xs) (suc i) (suc j) s l h =
      Descending-get d xs i j s.1 (omega arith) (omega arith)

  Descending-IsHeap : (xs : List A) → Descending xs → IsHeap less xs
  Descending-IsHeap xs s d c p h = Descending-get d xs ((c - 1) / 2) c s (omega arith) h

  module _ (o : IsStrictWeak less) where
    Bound-insert : (z x : A) (xs : List A) → Bound z xs → less z x ≡ false → Bound z (insert x xs)
    Bound-insert z x [] b h = (h, tt)
    Bound-insert z x (y ∷ ys) b h = elim (Bool-cases (less x y)) [
      | inl e ↦ rw e (b.0, Bound-insert z x ys b.1 h)
      | inr e ↦ rw e (h, b)
    ]

    Bound-below : (x y : A) (ys : List A) → less x y ≡ false → Bound y ys → Bound x ys
    Bound-below x y [] h b = tt
    Bound-below x y (z ∷ zs) h b = (o.transitive x y z h b.0, Bound-below x y zs h b.1)

    insert-Descending : (x : A) (xs : List A) → Descending xs → Descending (insert x xs)
    insert-Descending x [] s = (tt, tt)
    insert-Descending x (y ∷ ys) s = elim (Bool-cases (less x y)) [
      | inl e ↦ rw e (Bound-insert y x ys s.0 (o.asymmetric x y e), insert-Descending x ys s.1)
      | inr e ↦ rw e ((e, Bound-below x y ys e s.0), s)
    ]

    sort-Descending : (xs : List A) → Descending (sort xs)
    sort-Descending [] = tt
    sort-Descending (x ∷ xs) = insert-Descending x (sort xs) (sort-Descending xs)

    pub sort-IsHeap : (xs : List A) → IsHeap less (sort xs)
    sort-IsHeap xs = Descending-IsHeap (sort xs) (sort-Descending xs)

    abbrev pop : List A → List A
    pop [] = []
    pop (x ∷ xs) = sort xs ++ x ∷ []

    pub take_rest : (x : A) (xs : List A) → take (length xs) (pop (x ∷ xs)) ≡ sort xs
    take_rest x xs = rw⁻¹ (length-Perm (sort-Perm xs)) (take-append (sort xs) (x ∷ []))

    unfoldable pub sorted_heap : HeapOps less
    sorted_heap = record {
      push_heap = sort;
      pop_heap = pop;
      push_heap-Perm = λ x xs h. Perm.trans (sort-Perm (xs ++ x ∷ [])) (perm_append_singleton x xs);
      push_heap-IsHeap = λ x xs h. sort-IsHeap (xs ++ x ∷ []);
      pop_heap-Perm =
          λ x xs h. Perm.trans (perm_append_singleton x (sort xs)) (Perm.cons x (sort-Perm xs));
      pop_heap-IsHeap = λ x xs h. rw (take_rest x xs) (sort-IsHeap xs);
      pop_heap_last =
          λ d x xs h. rw⁻¹ (length-Perm (sort-Perm xs)) (get_or-append_end (sort xs) (x ∷ []) d);
    }
