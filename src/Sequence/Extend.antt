-- ===== src/Sequence/Extend.antt =====
-- The in-place loop of `extend` (include/ebus/sequence.hpp) against its meaning byte by byte.
use ebus.Base.{
  Bool, Bool-cases, List, [], ap, append-nil, append_assoc, arith, drop, drop-all, drop-set, false,
  get_or, if◌then◌else◌, inl, inr, length, length-append, length-replicate, length-set, length-take,
  refl, replicate, set, suc, sym, take, take-all, take-append, take-set, take-suc, true, zero, ℕ,
  ◌++◌, ◌+◌, ◌-◌, ◌<◌, ◌∙◌, ◌∷◌, ◌≡◌, ◌≤◌,
}
use ebus.Symbols.{needs_escape, escape}
use ebus.Sequence.{Sequence, count_if, extend_round, extend_loop, extend}
use ebus.Sequence.Spec.{escape_byte, escape_all}

pub escape_all-append : (xs ys : List ℕ) → escape_all (xs ++ ys) ≡ escape_all xs ++ escape_all ys
unfolding escape_all
escape_all-append [] ys = refl
escape_all-append (x ∷ xs) ys =
    rw (escape_all-append xs ys) (sym (append_assoc (escape_byte x) _ _))

pub count_if-append :
    (p : ℕ → Bool) (xs ys : List ℕ) → count_if p (xs ++ ys) ≡ count_if p xs + count_if p ys
unfolding count_if
count_if-append p [] ys = omega arith
count_if-append p (x ∷ xs) ys = ground (arith, count_if-append p xs ys)

length-escape_byte : (b : ℕ) → length (escape_byte b) ≡ suc (count_if needs_escape (b ∷ []))
unfolding escape_byte count_if
length-escape_byte b = ground arith

pub length-escape_all :
    (xs : List ℕ) → length (escape_all xs) ≡ length xs + count_if needs_escape xs
unfolding escape_all
length-escape_all [] = unfold count_if in refl
length-escape_all (x ∷ xs) = omega (
  arith,
  length-append (escape_byte x) (escape_all xs),
  length-escape_byte x,
  count_if-append needs_escape (x ∷ []) xs,
  length-escape_all xs,
)

-- What one round leaves: the bytes to read are untouched, and the written ones stand before the rest.
record Wrote (i p w : ℕ) (buf : List ℕ) (r : ℕ × List ℕ) : Type 0 where
  position : r.0 ≡ p
  unread : take i r.1 ≡ take i buf
  written : drop p r.1 ≡ escape_byte (get_or buf i 0) ++ drop w buf
  same_length : length r.1 ≡ length buf

extend_round-plain :
    (i p : ℕ) (buf : List ℕ)
    → needs_escape (get_or buf i 0) ≡ false
    → i ≤ p
    → p < length buf
    → Wrote i p (suc p) buf (extend_round i (suc p) buf)
unfolding extend_round escape_byte
extend_round-plain i p buf e h l =
    let back : suc p - 1 ≡ p = omega arith in
    rw e (record {
      position = back;
      unread = take-set i (suc p - 1) buf _ (omega arith);
      written = rw (back, escape_byte, e) (drop-set p buf _ l);
      same_length = length-set buf _ _;
    })

extend_round-escaped :
    (i p : ℕ) (buf : List ℕ)
    → needs_escape (get_or buf i 0) ≡ true
    → i ≤ p
    → suc p < length buf
    → Wrote i p (suc (suc p)) buf (extend_round i (suc (suc p)) buf)
unfolding extend_round escape_byte
extend_round-escaped i p buf e h l =
    let b = get_or buf i 0 in
    let one : suc (suc p) - 1 ≡ suc p = omega arith in
    let two : suc (suc p) - 2 ≡ p = omega arith in
    let mid = set buf (suc p) (escape b).1 in
    let long : length mid ≡ length buf = length-set buf (suc p) _ in
    rw (e, one, two)
      (record {
        position = refl;
        unread = take-set i p mid _ h ∙ take-set i (suc p) buf _ (omega arith);
        written =
            rw (escape_byte, e)
              (drop-set p mid _ (omega arith) ∙ ap (◌∷◌ (escape b).0) (drop-set (suc p) buf _ l));
        same_length = length-set mid p _ ∙ long;
      })

extend_round-Wrote :
    (i p w : ℕ) (buf : List ℕ)
    → w ≡ p + length (escape_byte (get_or buf i 0))
    → i ≤ p
    → w ≤ length buf
    → Wrote i p w buf (extend_round i w buf)
extend_round-Wrote i p w buf e h l = elim (Bool-cases (needs_escape (get_or buf i 0))) [
  | inl yes' ↦
      let e' : w ≡ suc (suc p) = e ∙ unfold escape_byte in rw (yes', escape_byte) (omega arith) in
      rw e' (extend_round-escaped i p buf yes' h (omega arith))
  | inr no' ↦
      let e' : w ≡ suc p = e ∙ unfold escape_byte in rw (no', escape_byte) (omega arith) in
      rw e' (extend_round-plain i p buf no' h (omega arith))
]

-- The loop, on any buffer with room for what it writes: whatever stood in the new places is gone.
extend_loop-escape_all :
    (k w : ℕ) (buf : List ℕ)
    → w ≡ length (escape_all (take k buf))
    → k ≤ length buf
    → w ≤ length buf
    → extend_loop k w buf ≡ escape_all (take k buf) ++ drop w buf
unfolding extend_loop
extend_loop-escape_all zero w buf e h l = rw e (unfold escape_all in refl)
extend_loop-escape_all (suc i) w buf e h l =
    let b = get_or buf i 0 in
    let front = take i buf in
    let split : escape_all (take (suc i) buf) ≡ escape_all front ++ escape_byte b =
      ap escape_all (take-suc i buf 0 (omega arith))
      ∙ escape_all-append front (b ∷ [])
      ∙ ap (◌++◌ (escape_all front)) (unfold escape_all in append-nil (escape_byte b)) in
    let p = length (escape_all front) in
    let room : i ≤ p = omega (arith, length-escape_all front, length-take i buf) in
    let r = extend_round i w buf in
    let done =
      extend_round-Wrote i p w buf
        (e ∙ ap length split ∙ length-append (escape_all front) (escape_byte b)) room l in
    extend_loop-escape_all i r.0 r.1
      (done.position ∙ ap (λ xs. length (escape_all xs)) (sym done.unread))
      (omega (arith, done.same_length))
      (omega (
        arith,
        done.position,
        done.same_length,
        e,
        ap length split,
        length-append (escape_all front) (escape_byte b),
      ))
    ∙ rw (done.unread, done.position, done.written, split)
        (sym (append_assoc (escape_all front) (escape_byte b) (drop w buf)))

escape_all_plain : (xs : List ℕ) → count_if needs_escape xs ≡ 0 → escape_all xs ≡ xs
unfolding escape_all escape_byte count_if
escape_all_plain [] e = refl
escape_all_plain (x ∷ xs) e = ground (arith, escape_all_plain xs)

-- The bytes of `extend`: an extended sequence is left alone, else each byte that needs it is escaped.
pub sequence-extend :
    (s : Sequence)
    → (extend s).sequence ≡ (if s.extended then s.sequence else escape_all s.sequence)
unfolding extend
sequence-extend s =
    let xs = s.sequence in
    let extra = count_if needs_escape xs in
    let n = length xs + extra in
    let zero_byte : ℕ = 0 in
    let fill = replicate (n - length xs) zero_byte in
    let buf = take n xs ++ fill in
    let long : n ≡ length (escape_all xs) = sym (length-escape_all xs) in
    let front : take (length xs) buf ≡ xs =
      ap (λ ys. take (length xs) (ys ++ fill)) (take-all n xs (omega arith))
      ∙ take-append xs fill in
    let room : length buf ≡ n = omega (
      arith,
      length-append (take n xs) fill,
      length-take n xs,
      length-replicate (n - length xs) zero_byte,
    ) in
    let full =
      extend_loop-escape_all (length xs) n buf
        (long ∙ ap (λ ys. length (escape_all ys)) (sym front)) (omega arith) (omega arith) in
    let whole : extend_loop (length xs) n buf ≡ escape_all xs =
      full ∙ rw (front, drop-all n buf (omega arith), append-nil) in
    ground (arith, whole, escape_all_plain xs)

pub extended-extend : (s : Sequence) → (extend s).extended ≡ true
unfolding extend
extended-extend s = ground arith
