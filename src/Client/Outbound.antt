-- ===== src/Client/Outbound.antt =====
-- The outbound buffer of src/ebus/app/client.cpp as a queue: what a client is sent stands behind what is
-- kept of the bytes before.
use ebus.Base.{List, drop, if◌then◌else◌, length, ℕ, ◌-◌, ◌<◌, ◌^◌, ◌≡◌}
use ebus.Client.{Client, command_of, is_enhanced, packed}
use ebus.Ring.{IsRing, Ring, for_each}

abbrev pub bytes_of : Ring ℕ → List ℕ
bytes_of r = for_each 0 r

-- The last n bytes.
abbrev pub keep : ℕ → List ℕ → List ℕ
keep n xs = drop (length xs - n) xs

-- A ring of m slots with what it holds; sizes are those of a machine.
pub record Holds (m : ℕ) (xs : List ℕ) (r : Ring ℕ) : Type 0 where
  pub ring : IsRing r
  pub size : length r.buffer ≡ m
  pub fits : m < 2 ^ 63
  pub bytes : bytes_of r ≡ xs

-- What a client is sent, and the slots that are made free for it.
abbrev pub written : Client → List ℕ → List ℕ
written c bytes = if is_enhanced c.kind then packed (command_of bytes) else bytes

abbrev pub reserved : Client → List ℕ → ℕ
reserved c bytes = if is_enhanced c.kind then 2 else length bytes
