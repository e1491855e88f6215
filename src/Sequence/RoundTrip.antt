-- ===== src/Sequence/RoundTrip.antt =====
-- Byte stuffing of include/ebus/sequence.hpp both ways.
use ebus.Base.{
  Bool-cases, List, Option-cases, [], ap, arith, false, inl, inr, not, refl, some, true, ℕ, ◌∙◌,
  ◌∷◌, ◌≡◌,
}
use ebus.Symbols.{needs_escape, escape, unescape}
use ebus.Sequence.{Sequence, extend, reduce}
use ebus.Sequence.Spec.{escape_byte, escape_all, unescape_all, is_wire}
use ebus.Sequence.Extend.{sequence-extend, extended-extend}
use ebus.Sequence.Reduce.{sequence-reduce, extended-reduce}

unescape_all-plain :
    (x : ℕ) (xs : List ℕ) → needs_escape x ≡ false → unescape_all (x ∷ xs) ≡ x ∷ unescape_all xs
unfolding unescape_all needs_escape unescape
unescape_all-plain x [] e = refl
unescape_all-plain x (y ∷ ys) e = ground arith

unescape-escape : (x : ℕ) → needs_escape x ≡ true → unescape (escape x).0 (escape x).1 ≡ some x
unfolding needs_escape unescape escape
unescape-escape x e = ground arith

unescape_all-escaped :
    (x : ℕ) (xs : List ℕ)
    → needs_escape x ≡ true
    → unescape_all ((escape x).0 ∷ (escape x).1 ∷ xs) ≡ x ∷ unescape_all xs
unfolding unescape_all
unescape_all-escaped x xs e = rw (unescape-escape x e, unescape_all) refl

pub unescape_all-escape_all : (xs : List ℕ) → unescape_all (escape_all xs) ≡ xs
unfolding escape_all escape_byte
unescape_all-escape_all [] = unfold unescape_all in refl
unescape_all-escape_all (x ∷ xs) = elim (Bool-cases (needs_escape x)) [
  | inl e ↦
      rw (e, escape_byte)
        (unescape_all-escaped x (escape_all xs) e ∙ ap (◌∷◌ x) (unescape_all-escape_all xs))
  | inr e ↦
      rw (e, escape_byte)
        (unescape_all-plain x (escape_all xs) e ∙ ap (◌∷◌ x) (unescape_all-escape_all xs))
]

is_wire-plain :
    (x : ℕ) (xs : List ℕ) → needs_escape x ≡ false → is_wire xs ≡ true → is_wire (x ∷ xs) ≡ true
unfolding is_wire needs_escape unescape
is_wire-plain x [] e h = ground arith
is_wire-plain x (y ∷ ys) e h = ground arith

is_wire-escaped :
    (x : ℕ) (xs : List ℕ)
    → needs_escape x ≡ true
    → is_wire xs ≡ true
    → is_wire ((escape x).0 ∷ (escape x).1 ∷ xs) ≡ true
unfolding is_wire
is_wire-escaped x xs e h = rw (unescape-escape x e, is_wire) h

pub is_wire-escape_all : (xs : List ℕ) → is_wire (escape_all xs) ≡ true
unfolding escape_all escape_byte
is_wire-escape_all [] = unfold is_wire in refl
is_wire-escape_all (x ∷ xs) = elim (Bool-cases (needs_escape x)) [
  | inl e ↦ rw (e, escape_byte) (is_wire-escaped x (escape_all xs) e (is_wire-escape_all xs))
  | inr e ↦ rw (e, escape_byte) (is_wire-plain x (escape_all xs) e (is_wire-escape_all xs))
]

escape_byte-unescape : (a b c : ℕ) → unescape a b ≡ some c → escape_byte c ≡ a ∷ b ∷ []
unfolding escape_byte unescape needs_escape escape
escape_byte-unescape a b c e = ground arith

escape_byte_plain : (a : ℕ) → not (needs_escape a) ≡ true → escape_byte a ≡ a ∷ []
unfolding escape_byte
escape_byte_plain a e = ground arith

escape_all-unescape_all : (xs : List ℕ) → is_wire xs ≡ true → escape_all (unescape_all xs) ≡ xs
unfolding unescape_all is_wire escape_all
escape_all-unescape_all [] h = refl
escape_all-unescape_all (a ∷ []) h = rw (escape_byte_plain a h) refl
escape_all-unescape_all (a ∷ b ∷ bs) h = elim (Option-cases (unescape a b)) [
  | inl e ↦ ground (arith, escape_all-unescape_all (b ∷ bs), escape_byte_plain a)
  | inr (c, e) ↦ ground (arith, escape_all-unescape_all bs, escape_byte-unescape a b c)
]

-- Extending a reduced sequence and reducing the result gives the sequence back; the bytes in
-- between are wire bytes, without SYN.
pub reduce-extend :
    (s : Sequence)
    → s.extended ≡ false
    → (reduce (extend s) ≡ s) × (is_wire (extend s).sequence ≡ true)
reduce-extend s e =
    let wire : (extend s).sequence ≡ escape_all s.sequence = sequence-extend s ∙ rw e refl in
    let back : (reduce (extend s)).sequence ≡ s.sequence =
      sequence-reduce (extend s)
      ∙ rw (extended-extend s, wire) (unescape_all-escape_all s.sequence) in
    (ground (arith, back, extended-reduce (extend s)), rw wire (is_wire-escape_all s.sequence))

-- Reducing an extended sequence of wire bytes and extending the result gives the sequence back.
pub extend-reduce :
    (s : Sequence) → s.extended ≡ true → is_wire s.sequence ≡ true → extend (reduce s) ≡ s
extend-reduce s e h =
    let less : (reduce s).sequence ≡ unescape_all s.sequence = sequence-reduce s ∙ rw e refl in
    let back : (extend (reduce s)).sequence ≡ s.sequence =
      sequence-extend (reduce s)
      ∙ rw (extended-reduce s, less) (escape_all-unescape_all s.sequence h) in
    ground (arith, back, extended-extend (reduce s))
