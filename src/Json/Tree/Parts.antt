-- ===== src/Json/Tree/Parts.antt =====
-- src/ebus/utils/json_reader.cpp: `JsonReader::validate` over each part of the text of a tree.
use ebus.Base.{
  all, Bool, List, [], arith, append_assoc, false, if◌then◌else◌, length, leb, not, refl, some,
  true, ℕ, ◌&&◌, ◌++◌, ◌<◌, ◌==◌, ◌||◌, ◌∙◌, ◌∷◌, ◌≡◌, ap,
}
use ebus.Json.{Text, is_digit, is_whitespace, skip_whitespace}
use ebus.Json.Writer.Calls.{escape, quoted}
use ebus.Json.Validate.{
  expect_value, expect_key_or_end, expect_colon, expect_comma_or_end, is_number_char, skip_number,
  skip_string, starts_with, step, then_expect, value_step, key_step, comma_step, open_bracket,
  close_bracket, inside_of, is_blank, skip_literal, max_recursion_depth,
}
use ebus.Json.Validate.Run.{continue_with, go, go-step}
use ebus.Json.Tree.{
  Json, Items, Fields, scalar, string, array, object, no_items, item, no_fields, field, gap, colon,
  body, items_text, fields_text,
}
use ebus.Json.Tree.Check.{
  IsScalar, IsWritable, null, boolean, number, ends_number, skip_gap, skip_key, skip_escape,
  skip_number_lem, is_plain,
}

-- A text that starts with a value or a key.
abbrev pub opens : Text → Bool
opens [] = false
opens (c ∷ t) = not (is_whitespace c) && (not (c == b'}') && not (c == b']'))

skip-opens : (t : Text) → opens t ≡ true → skip_whitespace t ≡ t
skip-opens [] h = refl
skip-opens (c ∷ t) h = ground arith

digit_opens : (c : ℕ) (t : Text) → (is_digit c || c == b'-') ≡ true → opens (c ∷ t) ≡ true
digit_opens c t h = ground arith

digit_not_space : (c : ℕ) → (is_digit c || c == b'-') ≡ true → is_whitespace c ≡ false
digit_not_space c h = ground arith

pub opens-body :
    (depth : ℕ) (v : Json) (b : Bool) (n : ℕ) (t : Text)
    → IsWritable depth v
    → opens (body v b n ++ t) ≡ true
unfolding body IsWritable
opens-body depth (scalar _) b n t null = refl
opens-body depth (scalar _) b n t (boolean true) = refl
opens-body depth (scalar _) b n t (boolean false) = refl
opens-body depth (scalar _) b n t (number c s d a) = digit_opens c (s ++ t) d
opens-body depth (string s) b n t h = refl
opens-body depth (array items) b n t h = refl
opens-body depth (object members) b n t h = refl

value_step-number :
    (stack : List ℕ) (c : ℕ) (t : Text)
    → (is_digit c || c == b'-') ≡ true
    → value_step stack c t ≡ then_expect expect_comma_or_end stack (some (skip_number t))
unfolding value_step
value_step-number stack c t h = ground arith

pub go-scalar :
    (s : Text) (stack : List ℕ) (t : Text)
    → IsScalar s
    → ends_number t ≡ true
    → go expect_value stack (s ++ t) ≡ go expect_comma_or_end stack t
unfolding step value_step skip_literal
go-scalar _ stack t null e = go-step expect_value stack b'n' _ refl
go-scalar _ stack t (boolean true) e = go-step expect_value stack b't' _ refl
go-scalar _ stack t (boolean false) e = go-step expect_value stack b'f' _ refl
go-scalar _ stack t (number c s d a) e =
    go-step expect_value stack c (s ++ t) (digit_not_space c d)
    ∙ (ap continue_with (value_step-number stack c (s ++ t) d)
        ∙ ap (go expect_comma_or_end stack) (skip_number_lem s t a e))

pub go-string :
    (s : Text) (stack : List ℕ) (t : Text)
    → go expect_value stack (quoted (escape s) ++ t) ≡ go expect_comma_or_end stack t
unfolding step value_step
go-string s stack t =
    go-step expect_value stack b'"' _ refl
    ∙ ap (λ r. continue_with (then_expect expect_comma_or_end stack r))
        (ap (skip_string false) (append_assoc (escape s) (b'"' ∷ []) t) ∙ skip_escape s t)

pub go-key :
    (key : Text) (stack : List ℕ) (t : Text)
    → all is_plain key ≡ true
    → go expect_key_or_end stack (quoted key ++ t) ≡ go expect_colon stack t
unfolding step key_step
go-key key stack t h =
    go-step expect_key_or_end stack b'"' _ refl
    ∙ ap (λ r. continue_with (then_expect expect_colon stack r))
        (ap (skip_string false) (append_assoc key (b'"' ∷ []) t) ∙ skip_key key t h)

pub go-colon :
    (b : Bool) (stack : List ℕ) (t : Text)
    → go expect_colon stack (colon b ++ t) ≡ go expect_value stack t
unfolding step
go-colon true stack t = go-step expect_colon stack b':' _ refl
go-colon false stack t = go-step expect_colon stack b':' _ refl

no_closer :
    (t : Text) → opens t ≡ true → (is_blank t || (starts_with b'}' t || starts_with b']' t)) ≡ false
no_closer [] h = absurd (cc h)
no_closer (c ∷ t) h = ground arith

pub go-comma :
    (stack : List ℕ) (t : Text)
    → opens (skip_whitespace t) ≡ true
    → go expect_comma_or_end stack (b',' ∷ t) ≡ go (inside_of stack) stack t
unfolding step comma_step
go-comma stack t h =
    go-step expect_comma_or_end stack b',' t refl ∙ rw (no_closer (skip_whitespace t) h) refl

pub go-close_array :
    (stack : List ℕ) (t : Text)
    → go expect_comma_or_end (b'[' ∷ stack) (b']' ∷ t) ≡ go expect_comma_or_end stack t
unfolding step comma_step close_bracket
go-close_array stack t = go-step expect_comma_or_end (b'[' ∷ stack) b']' t refl

pub go-close_object :
    (stack : List ℕ) (t : Text)
    → go expect_comma_or_end (b'{' ∷ stack) (b'}' ∷ t) ≡ go expect_comma_or_end stack t
unfolding step comma_step close_bracket
go-close_object stack t = go-step expect_comma_or_end (b'{' ∷ stack) b'}' t refl

room :
    (stack : List ℕ)
    → length stack < max_recursion_depth
    → leb max_recursion_depth (length stack) ≡ false
room stack l = ground arith

pub go-open_array :
    (stack : List ℕ) (t : Text) (b : Bool)
    → length stack < max_recursion_depth
    → starts_with b']' (skip_whitespace t) ≡ b
    → go expect_value stack (b'[' ∷ t)
      ≡ go (if b then expect_comma_or_end else expect_value) (b'[' ∷ stack) t
unfolding step value_step open_bracket
go-open_array stack t true l e = go-step expect_value stack b'[' t refl ∙ rw (room stack l, e) refl
go-open_array stack t false l e = go-step expect_value stack b'[' t refl ∙ rw (room stack l, e) refl

pub go-open_object :
    (stack : List ℕ) (t : Text) (b : Bool)
    → length stack < max_recursion_depth
    → starts_with b'}' (skip_whitespace t) ≡ b
    → go expect_value stack (b'{' ∷ t)
      ≡ go (if b then expect_comma_or_end else expect_key_or_end) (b'{' ∷ stack) t
unfolding step value_step open_bracket
go-open_object stack t true l e = go-step expect_value stack b'{' t refl ∙ rw (room stack l, e) refl
go-open_object stack t false l e =
    go-step expect_value stack b'{' t refl ∙ rw (room stack l, e) refl

-- No closing bracket stands where something opens.
pub opens-starts_with :
    (t : Text) → opens t ≡ true → (starts_with b']' t ≡ false) × (starts_with b'}' t ≡ false)
opens-starts_with [] h = (refl, refl)
opens-starts_with (c ∷ t) h = ground arith

pub opens-skip : (b : Bool) (n : ℕ) (t : Text) → opens t ≡ true → skip_whitespace (gap b n ++ t) ≡ t
opens-skip b n t h = skip_gap b n t ∙ skip-opens t h

pub ends-gap :
    (b : Bool) (n c : ℕ) (t : Text)
    → is_number_char c ≡ false
    → ends_number (gap b n ++ c ∷ t) ≡ true
ends-gap true n c t h = refl
ends-gap false n c t h = rw h

pub ends-items :
    (items : Items) (b : Bool) (n : ℕ) (t : Text)
    → ends_number t ≡ true
    → ends_number (items_text items false b n ++ t) ≡ true
unfolding items_text
ends-items no_items b n t h = h
ends-items (item v items) b n t h = refl

pub ends-fields :
    (members : Fields) (b : Bool) (n : ℕ) (t : Text)
    → ends_number t ≡ true
    → ends_number (fields_text members false b n ++ t) ≡ true
unfolding fields_text
ends-fields no_fields b n t h = h
ends-fields (field key v members) b n t h = refl
