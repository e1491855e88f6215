-- ===== src/Sequence.antt =====
-- include/ebus/sequence.hpp, class SequenceImpl: a list of bytes with the flag that says whether the
-- bytes are extended (wire format) or reduced. The byte vector below it is a list: allocations succeed.
pub mod Spec
pub mod Extend
pub mod Reduce
pub mod RoundTrip
pub mod Checksum
pub mod Slice
use ebus.Base.{
  Bool, List, [], any, drop, false, get_or, if◌then◌else◌, leb, length, ltb, min, none, not,
  replicate, set, some, suc, take, true, zero, ℕ, ◌&&◌, ◌++◌, ◌+◌, ◌-◌, ◌==◌, ◌||◌, ◌∷◌,
}
use ebus.Crc.{calc_crc}
use ebus.Symbols
use ebus.Symbols.{needs_escape, escape, unescape}

pub record Sequence : Type 0 where
  pub sequence : List ℕ
  pub extended : Bool

abbrev pub size : Sequence → ℕ
size s = length s.sequence

-- `sequence_[i]`; what stands outside the bytes in use is not modelled, and reads as 0.
abbrev pub byte_at : Sequence → ℕ → ℕ
byte_at s i = get_or s.sequence i 0

abbrev pub empty : Sequence
empty = record { sequence = []; extended = false }

-- `resize`: bytes that are new are written before they are read.
abbrev pub resize : List ℕ → ℕ → List ℕ
resize xs n = take n xs ++ replicate (n - length xs) 0

unfoldable pub equal_bytes : List ℕ → List ℕ → Bool
equal_bytes [] [] = true
equal_bytes (x ∷ xs) (y ∷ ys) = x == y && equal_bytes xs ys
equal_bytes _ _ = false

abbrev pub equal_flags : Bool → Bool → Bool
equal_flags true b = b
equal_flags false b = not b

-- `operator==`.
unfoldable pub equal : Sequence → Sequence → Bool
equal a b = equal_bytes a.sequence b.sequence && equal_flags a.extended b.extended

-- The bytes from `index` on, `len` of them, or all that there are if `len` is 0 or too large.
unfoldable pub slice_bytes : List ℕ → ℕ → ℕ → List ℕ
slice_bytes xs index len =
    let n = length xs in
    let count = if len == 0 || ltb n (index + len) then n - index else len in
    take count (drop index xs)

-- `assignSlice` and the slicing constructor: beyond the end the result is empty.
unfoldable pub assign_slice : Sequence → ℕ → ℕ → Sequence
assign_slice other index len =
    if leb (size other) index
    then record { sequence = []; extended = other.extended }
    else record { sequence = slice_bytes other.sequence index len; extended = other.extended }

unfoldable pub push_back : Sequence → ℕ → Bool → Sequence
push_back s byte extended = record { sequence = s.sequence ++ byte ∷ []; extended = extended }

unfoldable pub count_if : (ℕ → Bool) → List ℕ → ℕ
count_if p [] = 0
count_if p (x ∷ xs) = (if p x then 1 else 0) + count_if p xs

-- One round of the loop of `extend`, for the byte at `i`: the next write position and the buffer.
-- `w` is `write_idx + 1`, the number of places not yet written.
unfoldable pub extend_round : ℕ → ℕ → List ℕ → ℕ × List ℕ
extend_round i w buf =
    let b = get_or buf i 0 in
    if needs_escape b
    then (w - 2, set (set buf (w - 1) (escape b).1) (w - 2) (escape b).0)
    else (w - 1, set buf (w - 1) b)

-- The loop of `extend`, from the last byte down to the first, in place.
unfoldable pub extend_loop : ℕ → ℕ → List ℕ → List ℕ
extend_loop zero w buf = buf
extend_loop (suc i) w buf = let (w', buf') = extend_round i w buf in extend_loop i w' buf'

unfoldable pub extend : Sequence → Sequence
extend s =
    let extra = count_if needs_escape s.sequence in
    let old_size = size s in
    let new_size = old_size + extra in
    if s.extended then s else if extra == 0 then record s { extended = true } else record {
      sequence = extend_loop old_size new_size (resize s.sequence new_size);
      extended = true;
    }

unfoldable pub needs_extension : Sequence → Bool
needs_extension s = any needs_escape s.sequence

unfoldable pub needs_reduction : Sequence → Bool
needs_reduction s = if not s.extended then false else any (λ b. b == Symbols.ext) s.sequence

-- The byte that one round of the loop of `reduce` writes, and how many bytes it has read.
unfoldable pub reduce_read : List ℕ → ℕ → ℕ × ℕ
reduce_read buf r =
    if ltb (r + 1) (length buf)
    then elim (unescape (get_or buf r 0) (get_or buf (r + 1) 0)) [
      | some unescaped ↦ (unescaped, 2)
      | none ↦ (get_or buf r 0, 1)
    ]
    else (get_or buf r 0, 1)

-- The loop of `reduce`, in place, with fuel: the final write position and the buffer.
unfoldable pub reduce_loop : ℕ → ℕ → ℕ → List ℕ → ℕ × List ℕ
reduce_loop zero r w buf = (w, buf)
reduce_loop (suc fuel) r w buf =
    let (b, n) = reduce_read buf r in
    let rest = reduce_loop fuel (r + n) (w + 1) (set buf w b) in
    if ltb r (length buf) then rest else (w, buf)

unfoldable pub reduce : Sequence → Sequence
reduce s =
    let (w, buf) = reduce_loop (size s) 0 0 s.sequence in
    if not s.extended
    then s
    else if not (needs_reduction s)
    then record s { extended = false }
    else record { sequence = resize buf w; extended = false }

unfoldable pub logically_equals : Sequence → Sequence → Bool
logically_equals a b =
    if equal_flags a.extended b.extended
    then equal_bytes a.sequence b.sequence
    else equal_bytes (reduce a).sequence (reduce b).sequence

unfoldable pub append : Sequence → Sequence → Sequence
append s other =
    let temp = if s.extended then extend other else reduce other in
    record s { sequence = s.sequence ++ temp.sequence }

-- The running CRC behind one byte of `calculateCRC`.
unfoldable pub crc_byte : Bool → ℕ → ℕ → ℕ
crc_byte extended crc byte =
    if not extended && needs_escape byte
    then calc_crc (escape byte).1 (calc_crc (escape byte).0 crc)
    else calc_crc byte crc

unfoldable pub crc_loop : Bool → ℕ → List ℕ → ℕ
crc_loop extended crc [] = crc
crc_loop extended crc (byte ∷ bytes) = crc_loop extended (crc_byte extended crc byte) bytes

unfoldable pub calculate_crc : List ℕ → Bool → ℕ
calculate_crc bytes extended = crc_loop extended Symbols.zero bytes

unfoldable pub crc : Sequence → ℕ
crc s = calculate_crc s.sequence s.extended

-- `range`: the bytes of a view, clipped to what there is.
unfoldable pub range : Sequence → ℕ → ℕ → List ℕ
range s index len =
    if leb (size s) index then [] else take (min len (size s - index)) (drop index s.sequence)
