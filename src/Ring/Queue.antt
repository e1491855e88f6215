-- ===== src/Ring/Queue.antt =====
-- src/ebus/utils/circular_buffer.hpp as a queue: what its operations do to the elements in their order.
use ebus.Base.{
  ==_iff, Bool-cases, List, Option, [], arith, drop, get_or, if◌then◌else◌, inl, inr, length,
  length-set, none, refl, set, some, suc, sym, ℕ, ◌%◌, ◌++◌, ◌+◌, ◌-◌, ◌<◌, ◌==◌, ◌∙◌, ◌∷◌, ◌≡◌,
  zero,
}
use ebus.Ring.{IsRing, Ring, for_each, push_back, slots, try_pop}
use ebus.Ring.Slots.{length-slots, slots-advance, slots-append}
use native.Mathlib.Nat.{add-mod_right, mod-add-mod, mod-eq_of_lt, mod-lt}

-- Behind the last slot of a turn the first one comes again.
slot_turn : (head cap : ℕ) → head < cap → ((head + 1) % cap + (cap - 1)) % cap ≡ head
slot_turn head cap l =
    let turn : head + 1 + (cap - 1) ≡ head + cap = omega arith in
    mod-add-mod (head + 1) cap (cap - 1) ∙ rw turn (add-mod_right head cap ∙ mod-eq_of_lt l)

module _ {A : Type 0} (default : A) where
  -- A full buffer loses its oldest element to the new one.
  abbrev pub bounded_push : ℕ → A → List A → List A
  bounded_push cap item items = (if length items == cap then drop 1 items else items) ++ item ∷ []

  full_push :
      (item : A) (buffer : List A) (head : ℕ)
      → head < length buffer
      → slots default (set buffer head item) ((head + 1) % length buffer) (length buffer)
        ≡ drop 1 (slots default buffer head (length buffer)) ++ item ∷ []
  full_push item buffer head l =
      let cap = length buffer in
      let whole : cap - 1 + 1 ≡ cap = omega arith in
      let added = slots-append default buffer ((head + 1) % cap) (cap - 1) item (omega arith) in
      let moved = slots-advance default buffer head cap 1 (omega arith) (omega arith) in
      rw⁻¹ moved (rw (slot_turn head cap l, whole) at added)

  pub push_back-bounded :
      (item : A) (r : Ring A)
      → IsRing r
      → for_each default (push_back item r).0
        ≡ bounded_push (length r.buffer) item (for_each default r)
  unfolding push_back
  push_back-bounded item r v = elim (Bool-cases (r.count == length r.buffer)) [
    | inl e ↦
        let full : r.count ≡ length r.buffer = (==_iff r.count (length r.buffer)).0 e in
        rw (length-slots default r.buffer r.head r.count, e)
          (rw full (full_push item r.buffer r.head v.head_below))
    | inr e ↦
        rw (length-slots default r.buffer r.head r.count, e)
          (slots-append default r.buffer r.head r.count item (ground (arith, v.count_le)))
  ]

  abbrev pub first : List A → Option A
  first [] = none
  first (x ∷ xs) = some x

  first-slots :
      (xs : List A) (head n : ℕ)
      → 0 < n
      → head < length xs
      → first (slots default xs head n) ≡ some (get_or xs head default)
  first-slots xs head zero p l = absurd (omega arith)
  first-slots xs head (suc n) p l = rw (mod-eq_of_lt l) refl

  -- The oldest element comes out.
  pub try_pop-first :
      (r : Ring A)
      → IsRing r
      → let (r', item) = try_pop default r in
        (item ≡ first (for_each default r)) × (for_each default r' ≡ drop 1 (for_each default r))
  unfolding try_pop
  try_pop-first r v = elim (Bool-cases (r.count == 0)) [
    | inl e ↦ let nothing : r.count ≡ 0 = (==_iff r.count 0).0 e in rw e (rw nothing (refl, refl))
    | inr e ↦ rw e (
      sym (first-slots r.buffer r.head r.count (ground arith) v.head_below),
      slots-advance default r.buffer r.head r.count 1 (omega (arith, v.head_below)) (ground arith),
    )
  ]

module _ {A : Type 0} where
  pub push_back-IsRing : (item : A) (r : Ring A) → IsRing r → IsRing (push_back item r).0
  unfolding push_back
  push_back-IsRing item r v = elim (Bool-cases (r.count == length r.buffer)) [
    | inl e ↦
        let size = length-set r.buffer r.head item in
        let inside = mod-lt (r.head + 1) {m = length r.buffer} (omega (arith, v.head_below)) in
        rw e (record { head_below = rw size inside; count_le = rw size v.count_le })
    | inr e ↦
        let size = length-set r.buffer ((r.head + r.count) % length r.buffer) item in
        rw e (record {
          head_below = rw size v.head_below;
          count_le = ground (arith, v.count_le, size);
        })
  ]
