-- ===== src/Base/Table.antt =====
-- Checks over all values of a byte, by evaluation.
use Prim.Native.Nat.{ℕ, suc, zero, ◌<◌}
use mathlib.Core.Path.{◌≡◌}
use mathlib.Core.Bool.{Bool, true, ◌&&◌}
use native.Mathlib.Omega.{arith}

unfoldable pub holds_below : ℕ → (ℕ → Bool) → Bool
holds_below zero p = true
holds_below (suc n) p = holds_below n p && p n

pub holds_below_at : (n : ℕ) (p : ℕ → Bool) (x : ℕ) → holds_below n p ≡ true → x < n → p x ≡ true
unfolding holds_below
holds_below_at zero p x all' less = ground arith
holds_below_at (suc n) p x all' less = let rest = holds_below_at n p x in ground (arith, rest)
