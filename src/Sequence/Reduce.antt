-- ===== src/Sequence/Reduce.antt =====
-- The in-place loop of `reduce` (include/ebus/sequence.hpp) against its meaning byte by byte.
use ebus.Base.{
  Bool-cases, List, Option-cases, [], any, append-nil, append_assoc, arith, drop, drop-all,
  drop-set_below, drop-suc, false, get_or, if◌then◌else◌, inl, inr, length, length-set, ltb, ltb→lt,
  none, refl, set, some, suc, sym, take, take-suc-set, true, zero, ℕ, ◌++◌, ◌+◌, ◌-◌, ◌<◌, ◌==◌,
  ◌∙◌, ◌∷◌, ◌≡◌, ◌≤◌,
}
use ebus.Symbols
use ebus.Symbols.{unescape}
use ebus.Sequence.{reduce_read, Sequence, needs_reduction, reduce, reduce_loop, resize}
use ebus.Sequence.Spec.{unescape_all}

-- What the bytes from `r` on mean, and how many of them the first byte of the meaning takes.
record Read (buf : List ℕ) (r : ℕ) (res : ℕ × ℕ) : Type 0 where
  meaning : unescape_all (drop r buf) ≡ res.0 ∷ unescape_all (drop (r + res.1) buf)
  more : r < r + res.1
  within : r + res.1 ≤ length buf

unescape_all-pair :
    (a b : ℕ) (bs : List ℕ)
    → unescape_all (a ∷ b ∷ bs)
      ≡ elim (unescape a b) [ some c ↦ c ∷ unescape_all bs | none ↦ a ∷ unescape_all (b ∷ bs) ]
unfolding unescape_all
unescape_all-pair a b bs = refl

reduce_read-Read : (buf : List ℕ) (r : ℕ) → r < length buf → Read buf r (reduce_read buf r)
unfolding reduce_read unescape_all
reduce_read-Read buf r h =
    let a = get_or buf r 0 in
    let b = get_or buf (r + 1) 0 in
    let next : suc r ≡ r + 1 = omega arith in
    let first : drop r buf ≡ a ∷ drop (r + 1) buf = drop-suc r buf 0 h ∙ rw next refl in
    elim (Bool-cases (ltb (r + 1) (length buf))) [
      | inl pair ↦
          let second : drop (r + 1) buf ≡ b ∷ drop (r + 2) buf =
            let after : suc (r + 1) ≡ r + 2 = omega arith in
            drop-suc (r + 1) buf 0 (ltb→lt _ _ pair) ∙ rw after refl in
          rw pair (elim (Option-cases (unescape a b)) [
            | inl e ↦ rw e (record {
              meaning = rw (first, second) (rw (e, unescape_all) refl);
              more = omega arith;
              within = omega arith;
            })
            | inr (c, e) ↦ rw e (record {
              meaning = rw (first, second) (rw (e, unescape_all) refl);
              more = omega arith;
              within = omega (arith, ltb→lt _ _ pair);
            })
          ])
      | inr last ↦
          let end : drop (r + 1) buf ≡ [] = drop-all (r + 1) buf (ground arith) in
          rw last
            (record { meaning = rw (first, end) refl; more = omega arith; within = omega arith })
    ]

-- What the loop leaves: before the final write position, the meaning of what it had still to read.
record Reduced (buf : List ℕ) (r w : ℕ) (res : ℕ × List ℕ) : Type 0 where
  bytes : take res.0 res.1 ≡ take w buf ++ unescape_all (drop r buf)
  fits : res.0 ≤ length res.1

reduce_loop-stop :
    (fuel r w : ℕ) (buf : List ℕ) → ltb r (length buf) ≡ false → reduce_loop fuel r w buf ≡ (w, buf)
unfolding reduce_loop
reduce_loop-stop zero r w buf e = refl
reduce_loop-stop (suc fuel) r w buf e = rw e refl

reduce_loop-more :
    (fuel r w : ℕ) (buf : List ℕ)
    → ltb r (length buf) ≡ true
    → reduce_loop (suc fuel) r w buf
      ≡ reduce_loop fuel (r + (reduce_read buf r).1) (w + 1) (set buf w (reduce_read buf r).0)
unfolding reduce_loop
reduce_loop-more fuel r w buf e = rw e refl

Reduced-stop :
    (r w : ℕ) (buf : List ℕ) → w ≤ r → r ≤ length buf → length buf ≤ r → Reduced buf r w (w, buf)
unfolding unescape_all
Reduced-stop r w buf h l m = record {
  bytes = rw (drop-all r buf m) (sym (append-nil (take w buf)));
  fits = omega arith;
}

-- The loop, with the write position at or before the read position and fuel for every byte left.
reduce_loop-Reduced :
    (fuel r w : ℕ) (buf : List ℕ)
    → w ≤ r
    → r ≤ length buf
    → length buf ≤ r + fuel
    → Reduced buf r w (reduce_loop fuel r w buf)
reduce_loop-Reduced zero r w buf h l m =
    rw (reduce_loop-stop zero r w buf (ground arith)) (Reduced-stop r w buf h l (omega arith))
reduce_loop-Reduced (suc fuel) r w buf h l m = elim (Bool-cases (ltb r (length buf))) [
  | inr end ↦ rw (reduce_loop-stop (suc fuel) r w buf end) (Reduced-stop r w buf h l (ground arith))
  | inl more ↦
      let res = reduce_read buf r in
      let read = reduce_read-Read buf r (ltb→lt _ _ more) in
      let buf' = set buf w res.0 in
      let long : length buf' ≡ length buf = length-set buf w res.0 in
      let rest =
        reduce_loop-Reduced fuel (r + res.1) (w + 1) buf' (omega (arith, read.more))
          (omega (arith, read.within)) (omega (arith, read.more)) in
      let one : w + 1 ≡ suc w = omega arith in
      rw (reduce_loop-more fuel r w buf more) (record {
        bytes =
            rest.bytes
            ∙ rw
                (
                  drop-set_below (r + res.1) w buf res.0 (omega (arith, read.more)),
                  one,
                  take-suc-set w buf res.0 (omega (arith, ltb→lt _ _ more)),
                  read.meaning,
                )
                (append_assoc (take w buf) (res.0 ∷ []) (unescape_all (drop (r + res.1) buf)));
        fits = rest.fits;
      })
]

unescape_all_plain : (xs : List ℕ) → any (λ b. b == Symbols.ext) xs ≡ false → unescape_all xs ≡ xs
unfolding unescape
unescape_all_plain [] e = unfold unescape_all in refl
unescape_all_plain (a ∷ []) e = unfold unescape_all in refl
unescape_all_plain (a ∷ b ∷ bs) e =
    unescape_all-pair a b bs ∙ ground (arith, unescape_all_plain (b ∷ bs))

-- The bytes of `reduce`: a reduced sequence is left alone, else each escape pair gives its byte.
pub sequence-reduce :
    (s : Sequence)
    → (reduce s).sequence ≡ (if s.extended then unescape_all s.sequence else s.sequence)
unfolding reduce needs_reduction
sequence-reduce s =
    let xs = s.sequence in
    let res = reduce_loop (length xs) 0 0 xs in
    let done = reduce_loop-Reduced (length xs) 0 0 xs (omega arith) (omega arith) (omega arith) in
    let none_new : res.0 - length res.1 ≡ 0 = omega (arith, done.fits) in
    let whole : resize res.1 res.0 ≡ unescape_all xs =
      rw none_new (append-nil (take res.0 res.1)) ∙ done.bytes in
    ground (arith, whole, unescape_all_plain xs)

pub extended-reduce : (s : Sequence) → (reduce s).extended ≡ false
unfolding reduce needs_reduction
extended-reduce s = ground arith
