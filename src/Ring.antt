-- ===== src/Ring.antt =====
-- src/ebus/utils/circular_buffer.hpp: the class CircularBuffer, a ring of `length buffer` slots. `default`
-- stands for an element that is not there, T().
pub mod Slots
pub mod Queue
use ebus.Base.{
  Bool, List, Option, [], false, get_or, if◌then◌else◌, leb, length, none, set, some, suc, true,
  zero, ℕ, ◌%◌, ◌+◌, ◌-◌, ◌==◌, ◌∷◌, ◌<◌, ◌≤◌,
}

pub record Ring (A : Type 0) : Type 0 where
  pub buffer : List A
  pub head : ℕ
  pub count : ℕ

-- The elements from the slot `from` on, n of them: the order in which `forEach` visits them.
abbrev pub slots : {A : Type 0} → A → List A → ℕ → ℕ → List A
slots default buffer from zero = []
slots default buffer from (suc n) =
    get_or buffer (from % length buffer) default ∷ slots default buffer (from + 1) n

module _ {A : Type 0} where
  -- The result tells whether an element was overwritten.
  unfoldable pub push_back : A → Ring A → Ring A × Bool
  push_back item r =
      let cap = length r.buffer in
      if r.count == cap
      then (record r { buffer = set r.buffer r.head item; head = (r.head + 1) % cap }, true)
      else (
        record r { buffer = set r.buffer ((r.head + r.count) % cap) item; count = r.count + 1 },
        false,
      )

  unfoldable pub clear : Ring A → Ring A
  clear r = record r { head = 0; count = 0 }

module _ {A : Type 0} (default : A) where
  abbrev pub for_each : Ring A → List A
  for_each r = slots default r.buffer r.head r.count

  unfoldable pub try_pop : Ring A → Ring A × Option A
  try_pop r = if r.count == 0 then (r, none) else (
    record r { head = (r.head + 1) % length r.buffer; count = r.count - 1 },
    some (get_or r.buffer r.head default),
  )

  unfoldable pub at : Ring A → ℕ → A
  at r index =
      if leb r.count index
      then default
      else get_or r.buffer ((r.head + index) % length r.buffer) default

-- What keeps the indices inside the buffer.
pub record IsRing {A : Type 0} (r : Ring A) : Type 0 where
  pub head_below : r.head < length r.buffer
  pub count_le : r.count ≤ length r.buffer
