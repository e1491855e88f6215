-- ===== src/Json/Validate/Run.antt =====
-- src/ebus/utils/json_reader.cpp: the loop of `JsonReader::validate` has enough fuel, and how it runs over
-- each part of a text.
use ebus.Base.{
  Bool, List, Option, [], arith, false, if◌then◌else◌, length, none, refl, some, suc, zero, ℕ, ◌∷◌,
  ◌≡◌, ◌≤◌, ◌∙◌, ap,
}
use ebus.Json.{Text, is_whitespace, skip_whitespace}
use ebus.Json.Validate.Shortens.{StepsTo, step-StepsOver}
use ebus.Json.Validate.{State, Validator, is_blank, loop, step, validate, expect_value}

skip_whitespace_twice : (t : Text) → skip_whitespace (skip_whitespace t) ≡ skip_whitespace t
skip_whitespace_twice [] = refl
skip_whitespace_twice (c ∷ t) = ground (arith, skip_whitespace_twice t)

same_after :
    (fuel more n : ℕ) (r : Option Validator)
    → StepsTo n r
    → ((v : Validator)
        → length v.text ≤ n
        → loop fuel v.state v.stack v.text ≡ loop more v.state v.stack v.text)
    → (elim r [ none ↦ false | some v ↦ loop fuel v.state v.stack v.text ])
      ≡ elim r [ none ↦ false | some v ↦ loop more v.state v.stack v.text ]
same_after fuel more n none shorter again = refl
same_after fuel more n (some v) shorter again = again v (shorter v refl)

-- From the length of the text on, the fuel makes no difference.
pub loop_fuel :
    (fuel more : ℕ) (state : State) (stack : List ℕ) (t : Text)
    → length t ≤ fuel
    → length t ≤ more
    → loop fuel state stack t ≡ loop more state stack t
unfolding loop
loop_fuel zero zero state stack t h h' = refl
loop_fuel zero (suc more) state stack [] h h' = refl
loop_fuel (suc fuel) zero state stack [] h h' = refl
loop_fuel (suc fuel) (suc more) state stack [] h h' = refl
loop_fuel zero (suc more) state stack (c ∷ t) h h' = absurd (omega arith)
loop_fuel (suc fuel) zero state stack (c ∷ t) h h' = absurd (omega arith)
loop_fuel (suc fuel) (suc more) state stack (c ∷ t) h h' =
    same_after fuel more (length t) (step state stack c t) (step-StepsOver t state stack c)
      (λ v l. loop_fuel fuel more v.state v.stack v.text (omega arith) (omega arith))

-- The loop with enough fuel, and the same from a position whose white space is skipped first.
unfoldable pub run : State → List ℕ → Text → Bool
run state stack text = loop (length text) state stack text

abbrev pub go : State → List ℕ → Text → Bool
go state stack text = run state stack (skip_whitespace text)

-- What is left to do after a turn.
abbrev pub continue_with : Option Validator → Bool
continue_with none = false
continue_with (some v) = run v.state v.stack v.text

continue_with_lem :
    (n : ℕ) (r : Option Validator)
    → StepsTo n r
    → (elim r [ none ↦ false | some v ↦ loop n v.state v.stack v.text ]) ≡ continue_with r
unfolding run
continue_with_lem n none shorter = refl
continue_with_lem n (some v) shorter =
    loop_fuel n (length v.text) v.state v.stack v.text (shorter v refl) (omega arith)

run-step :
    (state : State) (stack : List ℕ) (c : ℕ) (t : Text)
    → run state stack (c ∷ t) ≡ continue_with (step state stack c t)
unfolding run loop
run-step state stack c t =
    continue_with_lem (length t) (step state stack c t) (step-StepsOver t state stack c)

pub go-step :
    (state : State) (stack : List ℕ) (c : ℕ) (t : Text)
    → is_whitespace c ≡ false
    → go state stack (c ∷ t) ≡ continue_with (step state stack c t)
go-step state stack c t h = ap (run state stack) (skip_lem h) ∙ run-step state stack c t
  where
    skip_lem : is_whitespace c ≡ false → skip_whitespace (c ∷ t) ≡ c ∷ t
    skip_lem h = rw h

validate_nonblank :
    (t : Text) → (if is_blank t then false else run expect_value [] t) ≡ run expect_value [] t
unfolding run loop
validate_nonblank [] = refl
validate_nonblank (c ∷ t) = refl

pub validate_lem : (t : Text) → validate t ≡ go expect_value [] t
unfolding validate run
validate_lem t = validate_nonblank (skip_whitespace t)

pub go-skip :
    (state : State) (stack : List ℕ) (t : Text)
    → go state stack (skip_whitespace t) ≡ go state stack t
go-skip state stack t = ap (run state stack) (skip_whitespace_twice t)
