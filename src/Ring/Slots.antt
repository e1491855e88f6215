-- ===== src/Ring/Slots.antt =====
-- The slots of a ring: what a write, a step of the head and one more element do to the order of
-- src/ebus/utils/circular_buffer.hpp.
use ebus.Base.{
  List, [], ap, arith, drop, get_or, length, length-set, take, drop-suc, refl, set, suc, sym, zero,
  ℕ, ◌%◌, ◌++◌, ◌+◌, ◌-◌, ◌<◌, ◌∙◌, ◌∷◌, ◌≡◌, ◌≢◌, ◌≤◌,
}
use ebus.Ring.{slots}
use mathlib.Core.Path.{ap₂}
use native.Mathlib.Decide.{dec_lt}
use native.Mathlib.Nat.{mod-add-mod, mod-eq-sub-mod, mod-eq_of_lt, mod-lt}

module _ {A : Type 0} (default : A) where
  get_or-set_same :
      (xs : List A) (i : ℕ) (v : A) → i < length xs → get_or (set xs i v) i default ≡ v
  get_or-set_same [] i v l = absurd (omega arith)
  get_or-set_same (x ∷ xs) zero v l = refl
  get_or-set_same (x ∷ xs) (suc i) v l = get_or-set_same xs i v (omega arith)

  get_or-set_other :
      (xs : List A) (i j : ℕ) (v : A) → i ≢ j → get_or (set xs j v) i default ≡ get_or xs i default
  get_or-set_other [] i j v n = refl
  get_or-set_other (x ∷ xs) zero zero v n = absurd (n refl)
  get_or-set_other (x ∷ xs) zero (suc j) v n = refl
  get_or-set_other (x ∷ xs) (suc i) zero v n = refl
  get_or-set_other (x ∷ xs) (suc i) (suc j) v n = get_or-set_other xs i j v (λ e. n (ap suc e))

  -- Two places less than a turn apart are different slots.
  apart : (c a d : ℕ) → 0 < d → d < c → a % c ≢ (a + d) % c
  apart c a d p l e =
      let low = mod-lt a {m = c} (omega arith) in
      let same = mod-add-mod a c d in
      elim (dec_lt (a % c + d) c) [
        | yes h ↦ omega (arith, mod-eq_of_lt h)
        | no h ↦
            let turn = mod-eq-sub-mod {n = a % c + d} {m = c} (omega arith) in
            let rest = mod-eq_of_lt {n = a % c + d - c} {m = c} (omega arith) in omega arith
      ]

  -- A write is not seen in the n slots that end before it and begin behind the turn's end.
  pub slots-set :
      (xs : List A) (from n k : ℕ) (v : A)
      → n ≤ k
      → k < length xs
      → slots default (set xs ((from + k) % length xs) v) from n ≡ slots default xs from n
  slots-set xs from zero k v l m = refl
  slots-set xs from (suc n) k v l m =
      let away = apart (length xs) from k (omega arith) m in
      let first = get_or-set_other xs (from % length xs) ((from + k) % length xs) v away in
      let shift : from + 1 + (k - 1) ≡ from + k = omega arith in
      let later = slots-set xs (from + 1) n (k - 1) v (omega arith) (omega arith) in
      rw (length-set xs ((from + k) % length xs) v, first)
        (ap (◌∷◌ (get_or xs (from % length xs) default)) (rw shift at later))

  pub slots-suc :
      (xs : List A) (from n : ℕ)
      → slots default xs from (suc n)
        ≡ slots default xs from n ++ get_or xs ((from + n) % length xs) default ∷ []
  slots-suc xs from zero = let same : from + 0 ≡ from = omega arith in rw same refl
  slots-suc xs from (suc n) =
      let shift : from + 1 + n ≡ from + suc n = omega arith in
      ap (◌∷◌ (get_or xs (from % length xs) default)) (rw shift at (slots-suc xs (from + 1) n))

  slots_same :
      (xs : List A) (from from' n : ℕ)
      → from % length xs ≡ from' % length xs
      → slots default xs from n ≡ slots default xs from' n
  slots_same xs from from' zero e = refl
  slots_same xs from from' (suc n) e =
      let step : (from + 1) % length xs ≡ (from' + 1) % length xs =
        sym (mod-add-mod from (length xs) 1)
        ∙ ap (λ r. (r + 1) % length xs) e
        ∙ mod-add-mod from' (length xs) 1 in
      ap₂ (λ x rest. get_or xs x default ∷ rest) e (slots_same xs (from + 1) (from' + 1) n step)

  -- Slots count from the head as it is in the buffer.
  pub slots-mod :
      (xs : List A) (from n : ℕ)
      → 0 < length xs
      → slots default xs (from % length xs) n ≡ slots default xs from n
  slots-mod xs from n p = slots_same xs (from % length xs) from n (mod-eq_of_lt (mod-lt from p))

  pub length-slots : (xs : List A) (from n : ℕ) → length (slots default xs from n) ≡ n
  length-slots xs from zero = refl
  length-slots xs from (suc n) = ap suc (length-slots xs (from + 1) n)

  pub slots-drop :
      (xs : List A) (from n k : ℕ)
      → k ≤ n
      → slots default xs (from + k) (n - k) ≡ drop k (slots default xs from n)
  slots-drop xs from n zero l =
      let none_less : n - 0 ≡ n = omega arith in
      let same : from + 0 ≡ from = omega arith in rw (none_less, same) refl
  slots-drop xs from zero (suc k) l = absurd (omega arith)
  slots-drop xs from (suc n) (suc k) l =
      let shift : from + 1 + k ≡ from + suc k = omega arith in
      let less : suc n - suc k ≡ n - k = omega arith in
      rw less (rw shift at (slots-drop xs (from + 1) n k (omega arith)))

  pub slots-take :
      (xs : List A) (from n k : ℕ)
      → k ≤ n
      → slots default xs from k ≡ take k (slots default xs from n)
  slots-take xs from n zero l = refl
  slots-take xs from zero (suc k) l = absurd (omega arith)
  slots-take xs from (suc n) (suc k) l =
      ap (◌∷◌ (get_or xs (from % length xs) default)) (slots-take xs (from + 1) n k (omega arith))

  -- Slots that end before the buffer does lie in a row.
  pub slots_row :
      (xs : List A) (from n : ℕ)
      → from + n ≤ length xs
      → slots default xs from n ≡ take n (drop from xs)
  slots_row xs from zero l = refl
  slots_row xs from (suc n) l =
      let low : from % length xs ≡ from = mod-eq_of_lt (omega arith) in
      let next : suc from ≡ from + 1 = omega arith in
      rw (low, drop-suc from xs default (omega arith), next)
        (ap (◌∷◌ (get_or xs from default)) (slots_row xs (from + 1) n (omega arith)))

  -- One more element behind the last, where there is room.
  pub slots-append :
      (xs : List A) (head count : ℕ) (v : A)
      → count < length xs
      → slots default (set xs ((head + count) % length xs) v) head (count + 1)
        ≡ slots default xs head count ++ v ∷ []
  slots-append xs head count v room =
      let slot = (head + count) % length xs in
      let more : count + 1 ≡ suc count = omega arith in
      let inside = mod-lt (head + count) {m = length xs} (omega arith) in
      rw
        (
          more,
          slots-suc (set xs slot v) head count,
          slots-set xs head count count v (omega arith) room,
          length-set xs slot v,
          get_or-set_same xs slot v inside,
        )
        refl

  -- The head k elements on.
  pub slots-advance :
      (xs : List A) (head count k : ℕ)
      → 0 < length xs
      → k ≤ count
      → slots default xs ((head + k) % length xs) (count - k) ≡ drop k (slots default xs head count)
  slots-advance xs head count k p l =
      slots-mod xs (head + k) (count - k) p ∙ slots-drop xs head count k l
