-- ===== src/DataTypes/Words.antt =====
-- The bytes of an integer of src/ebus/models/data_types.cpp, there and back.
use ebus.Base.{
  Bool, List, [], arith, false, length, refl, take, true, ℕ, ◌%◌, ◌*◌, ◌+◌, ◌/◌, ◌<◌, ◌^◌, ◌∷◌, ◌≡◌,
  ◌≤◌,
}
use ebus.Sequence.Spec.{IsBytes}
use ebus.DataTypes.Bytes.{join_bytes, low_bytes, swap_endian, read_int, write_int}

swap_swap2 : (v : ℕ) → v < 2 ^ 16 → swap_endian 2 (swap_endian 2 v) ≡ v
unfolding swap_endian
swap_swap2 v l = omega arith

swap_swap4 : (v : ℕ) → v < 2 ^ 32 → swap_endian 4 (swap_endian 4 v) ≡ v
unfolding swap_endian
swap_swap4 v l = omega arith

swap_fits2 : (v : ℕ) → swap_endian 2 v < 2 ^ 16
unfolding swap_endian
swap_fits2 v = omega arith

swap_fits4 : (v : ℕ) → swap_endian 4 v < 2 ^ 32
unfolding swap_endian
swap_fits4 v = omega arith

join-low2 : (v : ℕ) → v < 2 ^ 16 → join_bytes 2 (low_bytes 2 v) ≡ v
unfolding join_bytes low_bytes
join-low2 v l = omega arith

join-low4 : (v : ℕ) → v < 2 ^ 32 → join_bytes 4 (low_bytes 4 v) ≡ v
unfolding join_bytes low_bytes
join-low4 v l = omega arith

-- A number written and read at the same byte order is the number.
pub read-write2 : (v : ℕ) (flip : Bool) → v < 2 ^ 16 → read_int 2 (write_int 2 v flip) flip ≡ v
unfolding read_int write_int
read-write2 v true l = rw (join-low2 (swap_endian 2 v) (swap_fits2 v)) (swap_swap2 v l)
read-write2 v false l = join-low2 v l

pub read-write4 : (v : ℕ) (flip : Bool) → v < 2 ^ 32 → read_int 4 (write_int 4 v flip) flip ≡ v
unfolding read_int write_int
read-write4 v true l = rw (join-low4 (swap_endian 4 v) (swap_fits4 v)) (swap_swap4 v l)
read-write4 v false l = join-low4 v l

low-join2 :
    (bytes : List ℕ)
    → IsBytes bytes
    → 2 ≤ length bytes
    → low_bytes 2 (join_bytes 2 bytes) ≡ take 2 bytes
unfolding join_bytes low_bytes
low-join2 [] h l = absurd (omega arith)
low-join2 (a ∷ []) h l = absurd (omega arith)
low-join2 (a ∷ b ∷ bytes) (x, (y, _)) l =
    let first : (a + 2 ^ 8 * (b + 2 ^ 8 * 0)) % 2 ^ 8 ≡ a = omega arith in
    let second : (a + 2 ^ 8 * (b + 2 ^ 8 * 0)) / 2 ^ 8 % 2 ^ 8 ≡ b = omega arith in
    rw (first, second) refl

low-join4 :
    (bytes : List ℕ)
    → IsBytes bytes
    → 4 ≤ length bytes
    → low_bytes 4 (join_bytes 4 bytes) ≡ take 4 bytes
unfolding join_bytes low_bytes
low-join4 [] h l = absurd (omega arith)
low-join4 (a ∷ []) h l = absurd (omega arith)
low-join4 (a ∷ b ∷ []) h l = absurd (omega arith)
low-join4 (a ∷ b ∷ c ∷ []) h l = absurd (omega arith)
low-join4 (a ∷ b ∷ c ∷ d ∷ bytes) (x, (y, (z, (w, _)))) l =
    let v = a + 2 ^ 8 * (b + 2 ^ 8 * (c + 2 ^ 8 * (d + 2 ^ 8 * 0))) in
    let first : v % 2 ^ 8 ≡ a = omega arith in
    let second : v / 2 ^ 8 % 2 ^ 8 ≡ b = omega arith in
    let third : v / 2 ^ 8 / 2 ^ 8 % 2 ^ 8 ≡ c = omega arith in
    let fourth : v / 2 ^ 8 / 2 ^ 8 / 2 ^ 8 % 2 ^ 8 ≡ d = omega arith in
    rw (first, second, third, fourth) refl

join_fits2 : (bytes : List ℕ) → IsBytes bytes → join_bytes 2 bytes < 2 ^ 16
unfolding join_bytes
join_fits2 [] h = omega arith
join_fits2 (a ∷ []) (x, _) = omega arith
join_fits2 (a ∷ b ∷ bytes) (x, (y, _)) = omega arith

join_fits4 : (bytes : List ℕ) → IsBytes bytes → join_bytes 4 bytes < 2 ^ 32
unfolding join_bytes
join_fits4 [] h = omega arith
join_fits4 (a ∷ []) (x, _) = omega arith
join_fits4 (a ∷ b ∷ []) (x, (y, _)) = omega arith
join_fits4 (a ∷ b ∷ c ∷ []) (x, (y, (z, _))) = omega arith
join_fits4 (a ∷ b ∷ c ∷ d ∷ bytes) (x, (y, (z, (w, _)))) = omega arith

pub read_fits2 : (bytes : List ℕ) (flip : Bool) → IsBytes bytes → read_int 2 bytes flip < 2 ^ 16
unfolding read_int
read_fits2 bytes true h = swap_fits2 (join_bytes 2 bytes)
read_fits2 bytes false h = join_fits2 bytes h

pub read_fits4 : (bytes : List ℕ) (flip : Bool) → IsBytes bytes → read_int 4 bytes flip < 2 ^ 32
unfolding read_int
read_fits4 bytes true h = swap_fits4 (join_bytes 4 bytes)
read_fits4 bytes false h = join_fits4 bytes h

-- Bytes read and written at the same byte order are the bytes.
pub write-read2 :
    (bytes : List ℕ) (flip : Bool)
    → IsBytes bytes
    → 2 ≤ length bytes
    → write_int 2 (read_int 2 bytes flip) flip ≡ take 2 bytes
unfolding read_int write_int
write-read2 bytes true h l =
    rw (swap_swap2 (join_bytes 2 bytes) (join_fits2 bytes h)) (low-join2 bytes h l)
write-read2 bytes false h l = low-join2 bytes h l

pub write-read4 :
    (bytes : List ℕ) (flip : Bool)
    → IsBytes bytes
    → 4 ≤ length bytes
    → write_int 4 (read_int 4 bytes flip) flip ≡ take 4 bytes
unfolding read_int write_int
write-read4 bytes true h l =
    rw (swap_swap4 (join_bytes 4 bytes) (join_fits4 bytes h)) (low-join4 bytes h l)
write-read4 bytes false h l = low-join4 bytes h l
