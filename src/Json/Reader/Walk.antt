-- ===== src/Json/Reader/Walk.antt =====
-- src/ebus/utils/json_reader.cpp: the walk to a closing bracket over the text of a tree.
use ebus.Base.{
  Bool, [], all, arith, append_assoc, false, if◌then◌else◌, length, refl, replicate, suc, true,
  zero, ℕ, ◌&&◌, ◌*◌, ◌++◌, ◌==◌, ◌/◌, ◌%◌, ◌∙◌, ◌∷◌, ◌||◌, ◌≡◌, ap,
}
use ebus.Json.{Text, is_digit}
use ebus.Json.Writer.{escaped}
use ebus.Json.Writer.Calls.{escape, quoted}
use ebus.Json.Validate.{is_number_char}
use ebus.Json.Reader.{SkipEnd, inside, outside, skip_closing}
use ebus.Json.Tree.{
  Json, Items, Fields, scalar, string, array, object, no_items, item, no_fields, field, gap, deeper,
  separator, colon, body, items_text, fields_text,
}
use ebus.Json.Tree.Check.{
  IsScalar, IsWritable, AreWritable, FieldsAreWritable, null, boolean, number, is_plain,
  hex_digit-plain,
}

number_char-plain :
    (c : ℕ)
    → is_number_char c ≡ true
    → (c == b'"' ≡ false) × ((c == b'{' || c == b'[') ≡ false) × ((c == b'}' || c == b']') ≡ false)
number_char-plain c h = (ground arith, ground arith, ground arith)

&&-parts : (a b : Bool) → (a && b) ≡ true → (a ≡ true) × (b ≡ true)
&&-parts true b h = (refl, h)
&&-parts false b h = absurd (cc h)

module _ (ended : Bool) (depth : ℕ) where
  -- The rest of the walk from a position in the container, and in a string there.
  abbrev pub onward : Text → SkipEnd
  onward t = skip_closing ended (suc depth) outside t

  abbrev quoted_onward : Text → SkipEnd
  quoted_onward t = skip_closing ended (suc depth) inside t

  onward-number : (s t : Text) → all is_number_char s ≡ true → onward (s ++ t) ≡ onward t
  unfolding skip_closing
  onward-number [] t h = refl
  onward-number (c ∷ s) t h =
      let parts = &&-parts (is_number_char c) (all is_number_char s) h in
      let plain = number_char-plain c parts.0 in
      rw (plain.0, plain.1, plain.2) (onward-number s t parts.1)

  onward-digit : (c : ℕ) (t : Text) → (is_digit c || c == b'-') ≡ true → onward (c ∷ t) ≡ onward t
  unfolding skip_closing
  onward-digit c t h = ground arith

  pub onward-gap : (b : Bool) (n : ℕ) (t : Text) → onward (gap b n ++ t) ≡ onward t
  unfolding skip_closing
  onward-gap false n t = refl
  onward-gap true n t = spaces (n * 2)
    where
      spaces : (k : ℕ) → onward (replicate k b' ' ++ t) ≡ onward t
      spaces zero = refl
      spaces (suc k) = spaces k

  quoted-key : (key t : Text) → all is_plain key ≡ true → quoted_onward (key ++ t) ≡ quoted_onward t
  unfolding skip_closing
  quoted-key [] t h = refl
  quoted-key (c ∷ key) t h = ground (arith, quoted-key key t)

  quoted-escaped :
      (c : ℕ) (t : Text)
      → quoted_onward ((if length (escaped c) == 0 then c ∷ [] else escaped c) ++ t)
        ≡ quoted_onward t
  unfolding skip_closing
  quoted-escaped c t = ground (arith, hex_digit-plain (c / 16), hex_digit-plain (c % 16))

  quoted-escape : (s t : Text) → quoted_onward (escape s ++ t) ≡ quoted_onward t
  unfolding escape
  quoted-escape [] t = refl
  quoted-escape (c ∷ s) t =
      ap quoted_onward (append_assoc _ (escape s) t)
      ∙ (quoted-escaped c (escape s ++ t) ∙ quoted-escape s t)

  onward-string : (s t : Text) → onward (quoted (escape s) ++ t) ≡ onward t
  unfolding skip_closing
  onward-string s t =
      ap quoted_onward (append_assoc (escape s) (b'"' ∷ []) t) ∙ quoted-escape s (b'"' ∷ t)

  onward-key : (key t : Text) → all is_plain key ≡ true → onward (quoted key ++ t) ≡ onward t
  unfolding skip_closing
  onward-key key t h =
      ap quoted_onward (append_assoc key (b'"' ∷ []) t) ∙ quoted-key key (b'"' ∷ t) h

  onward-colon : (b : Bool) (t : Text) → onward (colon b ++ t) ≡ onward t
  unfolding skip_closing
  onward-colon true t = refl
  onward-colon false t = refl

  onward-separator : (first : Bool) (t : Text) → onward (separator first ++ t) ≡ onward t
  unfolding skip_closing
  onward-separator true t = refl
  onward-separator false t = refl

  onward-scalar : (s t : Text) → IsScalar s → onward (s ++ t) ≡ onward t
  unfolding skip_closing
  onward-scalar _ t null = refl
  onward-scalar _ t (boolean true) = refl
  onward-scalar _ t (boolean false) = refl
  onward-scalar _ t (number c s d a) = onward-digit c (s ++ t) d ∙ onward-number s t a

pub closing_text : (x g : Text) (c : ℕ) (t : Text) → (x ++ (g ++ c ∷ [])) ++ t ≡ x ++ (g ++ c ∷ t)
closing_text x g c t = simp append_assoc refl

item_text : (c g x y t : Text) → (c ++ (g ++ (x ++ y))) ++ t ≡ c ++ (g ++ (x ++ (y ++ t)))
item_text c g x y t = simp append_assoc refl

field_text :
    (c g k d x y t : Text)
    → (c ++ (g ++ (k ++ (d ++ (x ++ y))))) ++ t ≡ c ++ (g ++ (k ++ (d ++ (x ++ (y ++ t)))))
field_text c g k d x y t = simp append_assoc refl

mutual
  unfolding body items_text fields_text IsWritable skip_closing

  -- The walk passes over a whole value.
  onward-body :
      (ended : Bool) (depth limit : ℕ) (v : Json) (b : Bool) (n : ℕ) (t : Text)
      → IsWritable limit v
      → onward ended depth (body v b n ++ t) ≡ onward ended depth t
  onward-body ended depth limit (scalar s) b n t h = onward-scalar ended depth s t h
  onward-body ended depth limit (string s) b n t h = onward-string ended depth s t
  onward-body ended depth zero (array items) b n t h = absurd h
  onward-body ended depth (suc limit) (array items) b n t h =
      ap (onward ended (suc depth))
        (closing_text (items_text items true b (deeper b n)) (gap b n) b']' t)
      ∙ (onward-items ended (suc depth) limit items true b (deeper b n) (gap b n ++ b']' ∷ t) h
          ∙ onward-gap ended (suc depth) b n (b']' ∷ t))
  onward-body ended depth zero (object members) b n t h = absurd h
  onward-body ended depth (suc limit) (object members) b n t h =
      ap (onward ended (suc depth))
        (closing_text (fields_text members true b (deeper b n)) (gap b n) b'}' t)
      ∙ (onward-fields ended (suc depth) limit members true b (deeper b n) (gap b n ++ b'}' ∷ t) h
          ∙ onward-gap ended (suc depth) b n (b'}' ∷ t))

  pub onward-items :
      (ended : Bool) (depth limit : ℕ) (items : Items) (first b : Bool) (n : ℕ) (t : Text)
      → AreWritable limit items
      → onward ended depth (items_text items first b n ++ t) ≡ onward ended depth t
  onward-items ended depth limit no_items first b n t h = refl
  onward-items ended depth limit (item v items) first b n t h =
      let rest = items_text items false b n ++ t in
      ap (onward ended depth)
        (item_text (separator first) (gap b n) (body v b n) (items_text items false b n) t)
      ∙ (onward-separator ended depth first (gap b n ++ (body v b n ++ rest))
          ∙ (onward-gap ended depth b n (body v b n ++ rest)
              ∙ (onward-body ended depth limit v b n rest h.0
                  ∙ onward-items ended depth limit items false b n t h.1)))

  pub onward-fields :
      (ended : Bool) (depth limit : ℕ) (members : Fields) (first b : Bool) (n : ℕ) (t : Text)
      → FieldsAreWritable limit members
      → onward ended depth (fields_text members first b n ++ t) ≡ onward ended depth t
  onward-fields ended depth limit no_fields first b n t h = refl
  onward-fields ended depth limit (field key v members) first b n t h =
      let rest = fields_text members false b n ++ t in
      ap (onward ended depth) (
        field_text (separator first) (gap b n) (quoted key) (colon b) (body v b n)
          (fields_text members false b n) t)
      ∙ (onward-separator ended depth first _
          ∙ (onward-gap ended depth b n _
              ∙ (onward-key ended depth key _ h.0
                  ∙ (onward-colon ended depth b (body v b n ++ rest)
                      ∙ (onward-body ended depth limit v b n rest h.1
                          ∙ onward-fields ended depth limit members false b n t h.2)))))
