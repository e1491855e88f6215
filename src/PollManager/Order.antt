-- ===== src/PollManager/Order.antt =====
-- `Item::Greater` of src/ebus/app/poll_manager.hpp orders the items, as the heap functions ask for.
use ebus.Base.{arith, false, if◌then◌else◌, ltb, not, true, ℕ, ◌==◌, ◌≡◌}
use ebus.Heap.{IsStrictWeak}
use ebus.PollManager.{greater}

key_asymmetric :
    (a b x y : ℕ)
    → (if not (a == x) then ltb x a else ltb y b) ≡ true
    → (if not (x == a) then ltb a x else ltb b y) ≡ false
key_asymmetric a b x y h = ground arith

key_transitive :
    (a b x y u v : ℕ)
    → (if not (a == x) then ltb x a else ltb y b) ≡ false
    → (if not (x == u) then ltb u x else ltb v y) ≡ false
    → (if not (a == u) then ltb u a else ltb v b) ≡ false
key_transitive a b x y u v h k = ground arith

pub greater-IsStrictWeak : IsStrictWeak greater
greater-IsStrictWeak = record {
  asymmetric = λ a b. key_asymmetric a.next_due a.poll_id b.next_due b.poll_id;
  transitive =
      λ a b c. key_transitive a.next_due a.poll_id b.next_due b.poll_id c.next_due c.poll_id;
}
