-- ===== src/Base/Integer.antt =====
-- Integers over the native numbers, and what a machine integer of w bits keeps of them.
use Prim.Native.Nat.{ℕ, suc, zero, ◌+◌, ◌-◌, ◌*◌, ◌/◌, ◌%◌, ◌^◌}
use mathlib.Core.Bool.{Bool, false}
use ebus.Base.Tests.{if◌then◌else◌, ltb}

-- `negsuc n` is -(n + 1).
pub data ℤ : Type 0 where
  pos negsuc : ℕ → ℤ

abbrev pub neg : ℕ → ℤ
neg zero = pos 0
neg (suc n) = negsuc n

-- The w low bits of the two's complement, and what they stand for with a sign.
abbrev pub to_unsigned : ℕ → ℤ → ℕ
to_unsigned w (pos n) = n % 2 ^ w
to_unsigned w (negsuc n) = 2 ^ w - 1 - n % 2 ^ w

abbrev pub to_signed : ℕ → ℕ → ℤ
to_signed w n = if ltb n (2 ^ (w - 1)) then pos n else negsuc (2 ^ w - 1 - n)

-- A value of w bits, read with a sign or without.
abbrev pub read_sign : Bool → ℕ → ℕ → ℤ
read_sign signed w n = if signed then to_signed w n else pos n

abbrev pub times : ℤ → ℕ → ℤ
times (pos a) b = pos (a * b)
times (negsuc a) b = neg ((a + 1) * b)

-- Division that drops the fraction.
abbrev pub quot : ℤ → ℕ → ℤ
quot (pos a) b = pos (a / b)
quot (negsuc a) b = neg ((a + 1) / b)

-- A sum with a number.
abbrev pub plus : ℤ → ℕ → ℤ
plus (pos a) b = pos (a + b)
plus (negsuc a) b = if ltb a b then pos (b - 1 - a) else negsuc (a - b)

-- A sign and the range of w bits: with a sign, or without.
abbrev pub in_range : ℕ → Bool → ℤ → Bool
in_range w signed (pos n) = ltb n (if signed then 2 ^ (w - 1) else 2 ^ w)
in_range w signed (negsuc n) = if signed then ltb n (2 ^ (w - 1)) else false
