-- ===== src/Json/Validate/Shortens.antt =====
-- src/ebus/utils/json_reader.cpp: every turn of the loop of `JsonReader::validate` leaves less text.
use ebus.Base.{
  ◌||◌, Bool, List, Option, [], arith, false, if◌then◌else◌, length, none, refl, some, true, ℕ,
  ◌==◌, ◌∷◌, ◌≡◌, ◌≤◌,
}
use ebus.Json.{Text, is_digit, skip_whitespace}
use ebus.Json.Validate.{
  State, Validator, close_bracket, comma_step, key_step, open_bracket, skip_literal, skip_number,
  skip_string, step, then_expect, value_step, expect_value, expect_key_or_end, expect_colon,
  expect_comma_or_end,
}

pub length-skip_whitespace : (t : Text) → length (skip_whitespace t) ≤ length t
length-skip_whitespace [] = omega arith
length-skip_whitespace (c ∷ t) = ground (arith, length-skip_whitespace t)

length-skip_number : (t : Text) → length (skip_number t) ≤ length t
unfolding skip_number
length-skip_number [] = omega arith
length-skip_number (c ∷ t) = ground (arith, length-skip_number t)

-- The text that a step leaves is no longer than the text behind its byte.
abbrev pub Shortens : ℕ → Option Text → Type 0
Shortens n r = (t : Text) → r ≡ some t → length t ≤ n

skip_string-Shortens : (b : Bool) (t : Text) → Shortens (length t) (skip_string b t)
unfolding skip_string
skip_string-Shortens b [] u e = absurd (cc e)
skip_string-Shortens true (c ∷ t) u e = omega (arith, skip_string-Shortens false t u e)
skip_string-Shortens false (c ∷ t) u e =
    ground (arith, skip_string-Shortens false t u, skip_string-Shortens true t u)

pub skip_literal-Shortens : (l t : Text) → Shortens (length t) (skip_literal l t)
unfolding skip_literal
skip_literal-Shortens [] t u e = ground arith
skip_literal-Shortens (x ∷ l) [] u e = absurd (cc e)
skip_literal-Shortens (x ∷ l) (c ∷ t) u e = ground (arith, skip_literal-Shortens l t u)

abbrev pub StepsTo : ℕ → Option Validator → Type 0
StepsTo n r = (v : Validator) → r ≡ some v → length v.text ≤ n

then_expect-StepsTo :
    (n : ℕ) (state : State) (stack : List ℕ) (r : Option Text)
    → Shortens n r
    → StepsTo n (then_expect state stack r)
then_expect-StepsTo n state stack none h v e = absurd (cc e)
then_expect-StepsTo n state stack (some t) h v e =
    ground (arith, length-skip_whitespace t, h t refl)

if-StepsTo :
    (n : ℕ) (b : Bool) (r r' : Option Validator)
    → StepsTo n r
    → StepsTo n r'
    → StepsTo n (if b then r else r')
if-StepsTo n true r r' h h' = h
if-StepsTo n false r r' h h' = h'

none-StepsTo : (n : ℕ) → StepsTo n none
none-StepsTo n v e = absurd (cc e)

some-Shortens : (t u : Text) → length u ≤ length t → Shortens (length t) (some u)
some-Shortens t u l s e = ground (arith, l)

module _ (t : Text) where
  abbrev pub StepsOver : Option Validator → Type 0
  StepsOver r = StepsTo (length t) r

  if-StepsOver :
      (b : Bool) (r r' : Option Validator)
      → StepsOver r
      → StepsOver r'
      → StepsOver (if b then r else r')
  if-StepsOver b r r' h h' = if-StepsTo (length t) b r r' h h'

  here-StepsOver : (state : State) (stack : List ℕ) → StepsOver (then_expect state stack (some t))
  here-StepsOver state stack =
      then_expect-StepsTo (length t) state stack (some t) (some-Shortens t t (omega arith))

  string-StepsOver :
      (state : State) (stack : List ℕ) → StepsOver (then_expect state stack (skip_string false t))
  string-StepsOver state stack =
      then_expect-StepsTo (length t) state stack (skip_string false t)
        (skip_string-Shortens false t)

  literal-StepsOver :
      (stack : List ℕ) (l : Text)
      → StepsOver (then_expect expect_comma_or_end stack (skip_literal l t))
  literal-StepsOver stack l =
      then_expect-StepsTo (length t) expect_comma_or_end stack (skip_literal l t)
        (skip_literal-Shortens l t)

  open_bracket-StepsOver :
      (opening closing : ℕ) (inside : State) (stack : List ℕ)
      → StepsOver (open_bracket opening closing inside stack t)
  unfolding open_bracket
  open_bracket-StepsOver opening closing inside stack =
      if-StepsOver _ _ _ (none-StepsTo (length t)) (
        if-StepsOver _ _ _ (here-StepsOver expect_comma_or_end (opening ∷ stack))
          (here-StepsOver inside (opening ∷ stack)))

  close_bracket-StepsOver :
      (opening : ℕ) (stack : List ℕ) → StepsOver (close_bracket opening stack t)
  unfolding close_bracket
  close_bracket-StepsOver opening [] = none-StepsTo (length t)
  close_bracket-StepsOver opening (b ∷ stack) =
      if-StepsOver _ _ _ (here-StepsOver expect_comma_or_end stack) (none-StepsTo (length t))

  value_step-StepsOver : (stack : List ℕ) (c : ℕ) → StepsOver (value_step stack c t)
  unfolding value_step
  value_step-StepsOver stack c =
      if-StepsOver _ _ _ (open_bracket-StepsOver b'{' b'}' expect_key_or_end stack) (
        if-StepsOver _ _ _ (open_bracket-StepsOver b'[' b']' expect_value stack) (
          if-StepsOver _ _ _ (string-StepsOver expect_comma_or_end stack) (
            if-StepsOver (c == b't') _ _ (literal-StepsOver stack (b'r' ∷ b'u' ∷ b'e' ∷ [])) (
              if-StepsOver (c == b'n') _ _ (literal-StepsOver stack (b'u' ∷ b'l' ∷ b'l' ∷ [])) (
                if-StepsOver (c == b'f') _ _
                  (literal-StepsOver stack (b'a' ∷ b'l' ∷ b's' ∷ b'e' ∷ []))
                  (if-StepsOver (is_digit c || c == b'-') _ _
                    (then_expect-StepsTo (length t) expect_comma_or_end stack (some (skip_number t))
                      (some-Shortens t (skip_number t) (length-skip_number t)))
                    (none-StepsTo (length t))))))))

  pub step-StepsOver : (state : State) (stack : List ℕ) (c : ℕ) → StepsOver (step state stack c t)
  unfolding step key_step comma_step
  step-StepsOver expect_value stack c = value_step-StepsOver stack c
  step-StepsOver expect_key_or_end stack c =
      if-StepsOver _ _ _ (close_bracket-StepsOver b'{' stack)
        (if-StepsOver _ _ _ (string-StepsOver expect_colon stack) (none-StepsTo (length t)))
  step-StepsOver expect_colon stack c =
      if-StepsOver _ _ _ (here-StepsOver expect_value stack) (none-StepsTo (length t))
  step-StepsOver expect_comma_or_end stack c =
      if-StepsOver _ _ _ (if-StepsOver _ _ _ (none-StepsTo (length t)) (here-StepsOver _ stack)) (
        if-StepsOver _ _ _ (close_bracket-StepsOver b'{' stack)
          (if-StepsOver _ _ _ (close_bracket-StepsOver b'[' stack) (none-StepsTo (length t))))
