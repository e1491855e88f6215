-- ===== src/Sequence/Slice.antt =====
-- Slices of include/ebus/sequence.hpp that start at the first byte.
use ebus.Base.{arith, length, take, take-all, ℕ, ◌-◌, ◌<◌, ◌≡◌, ◌≤◌}
use ebus.Sequence.{Sequence, assign_slice, size, slice_bytes}

pub assign_slice-all : (s : Sequence) → 0 < size s → assign_slice s 0 0 ≡ s
unfolding assign_slice slice_bytes
assign_slice-all s h =
    let n : length s.sequence - 0 ≡ length s.sequence = omega arith in
    ground (arith, take-all (length s.sequence) s.sequence (omega arith), n)

pub assign_slice-take :
    (s : Sequence) (len : ℕ)
    → 0 < len
    → len ≤ size s
    → assign_slice s 0 len ≡ record { sequence = take len s.sequence; extended = s.extended }
unfolding assign_slice slice_bytes
assign_slice-take s len h l = ground arith
