-- ===== src/Scheduler/Order.antt =====
-- `Compare` of src/ebus/app/scheduler.hpp orders the items, as the heap functions ask for.
use ebus.Base.{arith, false, if◌then◌else◌, ltb, not, true, ℕ, ◌/◌, ◌==◌, ◌≡◌}
use ebus.Heap.{IsStrictWeak}
use ebus.Scheduler.{compare_items, Item, jitter_threshold}

-- The order of the buckets, then of the priorities, then of the session ids.
key_asymmetric :
    (a b c x y z : ℕ)
    → (if not (a == x) then ltb x a else if not (b == y) then ltb b y else ltb z c) ≡ true
    → (if not (x == a) then ltb a x else if not (y == b) then ltb y b else ltb c z) ≡ false
key_asymmetric a b c x y z h = ground arith

key_transitive :
    (a b c x y z u v w : ℕ)
    → (if not (a == x) then ltb x a else if not (b == y) then ltb b y else ltb z c) ≡ false
    → (if not (x == u) then ltb u x else if not (y == v) then ltb y v else ltb w z) ≡ false
    → (if not (a == u) then ltb u a else if not (b == v) then ltb b v else ltb w c) ≡ false
key_transitive a b c x y z u v w h k = ground arith

pub compare_items-IsStrictWeak : IsStrictWeak compare_items
compare_items-IsStrictWeak =
    let bucket : Item → ℕ = λ i. i.due / jitter_threshold in
    record {
      asymmetric = λ a b.
          key_asymmetric (bucket a) a.priority a.session_id (bucket b) b.priority b.session_id;
      transitive = λ a b c.
          key_transitive (bucket a) a.priority a.session_id (bucket b) b.priority b.session_id
            (bucket c) c.priority c.session_id;
    }
