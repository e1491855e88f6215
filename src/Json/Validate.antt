-- ===== src/Json/Validate.antt =====
-- src/ebus/utils/json_reader.cpp: `JsonReader::validate`. The position is the text behind it, and the stack
-- of open brackets is a list, the innermost first.
pub mod Shortens
pub mod Run
use ebus.Base.{
  Bool, List, Option, [], false, if◌then◌else◌, length, leb, none, some, suc, true, zero, ℕ, ◌&&◌,
  ◌==◌, ◌∷◌, ◌||◌,
}
use ebus.Json.{Text, is_digit, skip_whitespace}

abbrev pub max_recursion_depth : ℕ
max_recursion_depth = 32

pub data State : Type 0 where
  expect_value : State
  expect_key_or_end : State
  expect_colon : State
  expect_comma_or_end : State

pub record Validator : Type 0 where
  pub state : State
  pub stack : List ℕ
  pub text : Text

-- `strchr` finds the 0 at the end of its string, too.
abbrev pub is_number_char : ℕ → Bool
is_number_char c =
    is_digit c || (c == b'.' || (c == b'e' || (c == b'E' || (c == b'+' || (c == b'-' || c == 0)))))

unfoldable pub skip_number : Text → Text
skip_number [] = []
skip_number (c ∷ text) = let rest = skip_number text in if is_number_char c then rest else c ∷ text

-- The text behind the closing quote. A backslash steps over two bytes: the first argument tells that the
-- second of them is due.
unfoldable pub skip_string : Bool → Text → Option Text
skip_string skipping [] = none
skip_string true (c ∷ text) = skip_string false text
skip_string false (c ∷ text) =
    let escaped = skip_string true text in
    let plain = skip_string false text in
    if c == b'"' then some text else if c == b'\\' then escaped else plain

unfoldable pub skip_literal : Text → Text → Option Text
skip_literal [] text = some text
skip_literal (l ∷ literal) [] = none
skip_literal (l ∷ literal) (c ∷ text) =
    let rest = skip_literal literal text in if c == l then rest else none

abbrev pub starts_with : ℕ → Text → Bool
starts_with b [] = false
starts_with b (c ∷ text) = c == b

-- What follows a part that has been read, or a refusal.
abbrev pub then_expect : State → List ℕ → Option Text → Option Validator
then_expect state stack none = none
then_expect state stack (some text) =
    some (record { state = state; stack = stack; text = skip_whitespace text })

unfoldable pub open_bracket : ℕ → ℕ → State → List ℕ → Text → Option Validator
open_bracket opening closing inside stack text =
    if leb max_recursion_depth (length stack)
    then none
    else if starts_with closing (skip_whitespace text)
    then then_expect expect_comma_or_end (opening ∷ stack) (some text)
    else then_expect inside (opening ∷ stack) (some text)

unfoldable pub close_bracket : ℕ → List ℕ → Text → Option Validator
close_bracket opening [] text = none
close_bracket opening (bracket ∷ stack) text =
    if bracket == opening then then_expect expect_comma_or_end stack (some text) else none

-- The cases of the switch, at the byte `c` before `text`.
unfoldable pub value_step : List ℕ → ℕ → Text → Option Validator
value_step stack c text =
    if c == b'{'
    then open_bracket b'{' b'}' expect_key_or_end stack text
    else if c == b'['
    then open_bracket b'[' b']' expect_value stack text
    else if c == b'"'
    then then_expect expect_comma_or_end stack (skip_string false text)
    else if c == b't'
    then then_expect expect_comma_or_end stack (skip_literal (b'r' ∷ b'u' ∷ b'e' ∷ []) text)
    else if c == b'n'
    then then_expect expect_comma_or_end stack (skip_literal (b'u' ∷ b'l' ∷ b'l' ∷ []) text)
    else if c == b'f'
    then then_expect expect_comma_or_end stack (skip_literal (b'a' ∷ b'l' ∷ b's' ∷ b'e' ∷ []) text)
    else if is_digit c || c == b'-'
    then then_expect expect_comma_or_end stack (some (skip_number text))
    else none

unfoldable pub key_step : List ℕ → ℕ → Text → Option Validator
key_step stack c text =
    if c == b'}'
    then close_bracket b'{' stack text
    else if c == b'"'
    then then_expect expect_colon stack (skip_string false text)
    else none

-- What is expected behind a comma.
abbrev pub inside_of : List ℕ → State
inside_of [] = expect_value
inside_of (bracket ∷ stack) = if bracket == b'{' then expect_key_or_end else expect_value

abbrev pub is_blank : Text → Bool
is_blank [] = true
is_blank (c ∷ text) = false

unfoldable pub comma_step : List ℕ → ℕ → Text → Option Validator
comma_step stack c text =
    let behind = skip_whitespace text in
    if c == b','
    then if is_blank behind || (starts_with b'}' behind || starts_with b']' behind)
      then none
      else then_expect (inside_of stack) stack (some text)
    else if c == b'}'
    then close_bracket b'{' stack text
    else if c == b']'
    then close_bracket b'[' stack text
    else none

unfoldable pub step : State → List ℕ → ℕ → Text → Option Validator
step expect_value stack c text = value_step stack c text
step expect_key_or_end stack c text = key_step stack c text
step expect_colon stack c text =
    if c == b':' then then_expect expect_value stack (some text) else none
step expect_comma_or_end stack c text = comma_step stack c text

abbrev pub is_complete : State → List ℕ → Bool
is_complete expect_comma_or_end [] = true
is_complete state stack = false

-- The loop, with fuel: every turn takes a byte at least.
unfoldable pub loop : ℕ → State → List ℕ → Text → Bool
loop fuel state stack [] = is_complete state stack
loop zero state stack (c ∷ text) = false
loop (suc fuel) state stack (c ∷ text) = elim (step state stack c text) [
  | none ↦ false
  | some v ↦ loop fuel v.state v.stack v.text
]

unfoldable pub validate : Text → Bool
validate text =
    let start = skip_whitespace text in
    if is_blank start then false else loop (length start) expect_value [] start
