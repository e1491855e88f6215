-- ===== src/Sequence/Spec.antt =====
-- What `extend` and `reduce` of include/ebus/sequence.hpp mean, byte by byte and out of place.
use ebus.Base.{Bool, List, [], if◌then◌else◌, none, not, some, true, ℕ, ◌&&◌, ◌++◌, ◌<◌, ◌∷◌}
use ebus.Symbols.{needs_escape, escape, unescape}

abbrev pub IsBytes : List ℕ → Type 0
IsBytes [] = Unit {0}
IsBytes (x ∷ xs) = (x < 256) × IsBytes xs

unfoldable pub escape_byte : ℕ → List ℕ
escape_byte b = if needs_escape b then (escape b).0 ∷ (escape b).1 ∷ [] else b ∷ []

unfoldable pub escape_all : List ℕ → List ℕ
escape_all [] = []
escape_all (b ∷ bs) = escape_byte b ++ escape_all bs

unfoldable pub unescape_all : List ℕ → List ℕ
unescape_all [] = []
unescape_all (a ∷ []) = a ∷ []
unescape_all (a ∷ b ∷ bs) = elim (unescape a b) [
  | some c ↦ c ∷ unescape_all bs
  | none ↦ a ∷ unescape_all (b ∷ bs)
]

-- What the wire may carry: no SYN, and behind each escape byte 0 or 1.
unfoldable pub is_wire : List ℕ → Bool
is_wire [] = true
is_wire (a ∷ []) = not (needs_escape a)
is_wire (a ∷ b ∷ bs) = elim (unescape a b) [
  | some c ↦ is_wire bs
  | none ↦ not (needs_escape a) && is_wire (b ∷ bs)
]
