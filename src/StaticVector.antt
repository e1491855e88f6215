-- ===== src/StaticVector.antt =====
-- include/ebus/static_vector.hpp: the list of the constructed elements; `capacity` is the template's
-- parameter. Iterators are indices.
use ebus.Base.{
  Bool, List, [], drop, false, get_or, if◌then◌else◌, leb, length, take, true, ℕ, ◌++◌, ◌+◌, ◌-◌,
  ◌==◌, ◌∷◌,
}

module _ {A : Type 0} (capacity : ℕ) where
  -- A full vector refuses the element.
  abbrev pub push_back : A → List A → List A × Bool
  push_back value items =
      if leb capacity (length items) then (items, false) else (items ++ value ∷ [], true)

  abbrev pub full : List A → Bool
  full items = length items == capacity

module _ {A : Type 0} where
  abbrev pub pop_back : List A → List A
  pop_back items = take (length items - 1) items

  -- `back()`, with what stands for an element that is not there.
  abbrev pub back : A → List A → A
  back default items = get_or items (length items - 1) default

  -- `erase(pos)`; a position behind the end erases nothing.
  abbrev pub erase : ℕ → List A → List A
  erase pos items = take pos items ++ drop (pos + 1) items
