-- ===== src/Json/Tree/Check.antt =====
-- src/ebus/utils/json_reader.cpp: `JsonReader::validate` on the text of a tree.
use ebus.Base.{
  all, Bool, List, [], arith, append_assoc, false, if◌then◌else◌, length, not, refl, replicate,
  some, suc, true, zero, ℕ, ◌&&◌, ◌*◌, ◌++◌, ◌/◌, ◌%◌, ◌<◌, ◌==◌, ◌||◌, ◌∙◌, ◌∷◌, ◌≡◌, ap, sym,
}
use ebus.Json.{Text, is_digit, skip_whitespace}
use ebus.Json.Writer.{escaped, hex_digit, null_text, boolean_text}
use ebus.Json.Writer.Calls.{escape}
use ebus.Json.Validate.{State, is_number_char, skip_number, skip_string}
use ebus.Json.Validate.Run.{go, go-skip}
use ebus.Json.Tree.{
  Json, Items, Fields, scalar, string, array, object, no_items, item, no_fields, field, gap,
}

-- The texts that std::to_chars and formatFloat give, and the names.
pub data IsScalar : Text → Type 0 where
  null : IsScalar null_text
  boolean : (b : Bool) → IsScalar (boolean_text b)
  number :
      (c : ℕ) (t : Text)
      → (is_digit c || c == b'-') ≡ true
      → all is_number_char t ≡ true
      → IsScalar (c ∷ t)

-- A key is written as it is.
abbrev pub is_plain : ℕ → Bool
is_plain c = not (c == b'"') && not (c == b'\\')

unfoldable mutual
  -- The containers of the tree stand at most `depth` deep, its scalars are such texts, and no key has a
  -- quote or a backslash.
  pub IsWritable : ℕ → Json → Type 0
  IsWritable depth (scalar t) = IsScalar t
  IsWritable depth (string s) = Unit {0}
  IsWritable zero (array items) = ⊥
  IsWritable (suc depth) (array items) = AreWritable depth items
  IsWritable zero (object members) = ⊥
  IsWritable (suc depth) (object members) = FieldsAreWritable depth members

  pub AreWritable : ℕ → Items → Type 0
  AreWritable depth no_items = Unit {0}
  AreWritable depth (item v items) = IsWritable depth v × AreWritable depth items

  pub FieldsAreWritable : ℕ → Fields → Type 0
  FieldsAreWritable depth no_fields = Unit {0}
  FieldsAreWritable depth (field key v members) =
      (all is_plain key ≡ true) × IsWritable depth v × FieldsAreWritable depth members

pub skip_gap : (b : Bool) (n : ℕ) (t : Text) → skip_whitespace (gap b n ++ t) ≡ skip_whitespace t
skip_gap false n t = refl
skip_gap true n t = skip_spaces (n * 2)
  where
    skip_spaces : (k : ℕ) → skip_whitespace (replicate k b' ' ++ t) ≡ skip_whitespace t
    skip_spaces zero = refl
    skip_spaces (suc k) = skip_spaces k

pub go-gap :
    (state : State) (stack : List ℕ) (b : Bool) (n : ℕ) (t : Text)
    → go state stack (gap b n ++ t) ≡ go state stack t
go-gap state stack b n t =
    sym (go-skip state stack (gap b n ++ t))
    ∙ (ap (go state stack) (skip_gap b n t) ∙ go-skip state stack t)

pub skip_key :
    (key t : Text) → all is_plain key ≡ true → skip_string false (key ++ b'"' ∷ t) ≡ some t
unfolding skip_string
skip_key [] t h = refl
skip_key (c ∷ key) t h = ground (arith, skip_key key t)

pub hex_digit-plain :
    (n : ℕ) → n < 16 → (hex_digit n == b'"' ≡ false) × (hex_digit n == b'\\' ≡ false)
hex_digit-plain n h = ground arith

skip_escaped :
    (c : ℕ) (t : Text)
    → skip_string false ((if length (escaped c) == 0 then c ∷ [] else escaped c) ++ t)
      ≡ skip_string false t
unfolding skip_string
skip_escaped c t = ground (arith, hex_digit-plain (c / 16), hex_digit-plain (c % 16))

pub skip_escape : (s t : Text) → skip_string false (escape s ++ b'"' ∷ t) ≡ some t
unfolding escape
skip_escape [] t = skip_key [] t refl
skip_escape (c ∷ s) t =
    ap (skip_string false) (append_assoc _ (escape s) (b'"' ∷ t))
    ∙ (skip_escaped c (escape s ++ b'"' ∷ t) ∙ skip_escape s t)

abbrev pub ends_number : Text → Bool
ends_number [] = true
ends_number (c ∷ t) = not (is_number_char c)

pub skip_number_lem :
    (s t : Text) → all is_number_char s ≡ true → ends_number t ≡ true → skip_number (s ++ t) ≡ t
unfolding skip_number
skip_number_lem [] [] h e = refl
skip_number_lem [] (c ∷ t) h e = ground arith
skip_number_lem (c ∷ s) t h e = ground (arith, skip_number_lem s t)
