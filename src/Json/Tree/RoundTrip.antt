-- ===== src/Json/Tree/RoundTrip.antt =====
-- include/ebus/detail/json_writer.hpp and src/ebus/utils/json_reader.cpp: what the writer prints,
-- `JsonReader::validate` accepts.
use ebus.Base.{
  append-nil, Bool, List, [], arith, append_assoc, false, length, refl, suc, true, zero, ℕ, ◌++◌,
  ◌+◌, ◌≤◌, ◌∙◌, ◌∷◌, ◌≡◌, ap, sym,
}
use ebus.Json.{Text, skip_whitespace}
use ebus.Json.Writer.{initial}
use ebus.Json.Writer.Output.{output}
use ebus.Json.Writer.Calls.{quoted}
use ebus.Json.Validate.{
  expect_value, expect_key_or_end, expect_comma_or_end, starts_with, validate, loop,
  max_recursion_depth,
}
use ebus.Json.Validate.Run.{run, go, validate_lem}
use ebus.Json.Tree.{
  Json, Items, Fields, scalar, string, array, object, no_items, item, no_fields, field, emit, gap,
  deeper, colon, body, items_text, fields_text,
}
use ebus.Json.Tree.Check.{IsWritable, AreWritable, FieldsAreWritable, ends_number, go-gap, skip_gap}
use ebus.Json.Tree.Print.{output-emit}
use ebus.Json.Tree.Parts.{
  opens, opens-body, go-scalar, go-string, go-key, go-colon, go-comma, go-close_array,
  go-close_object, go-open_array, go-open_object, opens-starts_with, opens-skip, ends-gap,
  ends-items, ends-fields,
}

closing_text : (x g : Text) (c : ℕ) (t : Text) → (x ++ (g ++ c ∷ [])) ++ t ≡ x ++ (g ++ c ∷ t)
closing_text x g c t = simp append_assoc refl

item_text : (g x y t : Text) → (g ++ (x ++ y)) ++ t ≡ g ++ (x ++ (y ++ t))
item_text g x y t = simp append_assoc refl

field_text :
    (g k d x y t : Text) → (g ++ (k ++ (d ++ (x ++ y)))) ++ t ≡ g ++ (k ++ (d ++ (x ++ (y ++ t))))
field_text g k d x y t = simp append_assoc refl

starts-gap :
    (b : Bool) (n c : ℕ) (t : Text)
    → starts_with c (skip_whitespace (c ∷ t)) ≡ true
    → starts_with c (skip_whitespace (gap b n ++ c ∷ t)) ≡ true
starts-gap b n c t h = ap (starts_with c) (skip_gap b n (c ∷ t)) ∙ h

mutual
  unfolding body items_text fields_text IsWritable

  go-body :
      (depth : ℕ) (v : Json) (b : Bool) (n : ℕ) (stack : List ℕ) (t : Text)
      → IsWritable depth v
      → length stack + depth ≤ max_recursion_depth
      → ends_number t ≡ true
      → go expect_value stack (body v b n ++ t) ≡ go expect_comma_or_end stack t
  go-body depth (scalar s) b n stack t h l e = go-scalar s stack t h e
  go-body depth (string s) b n stack t h l e = go-string s stack t
  go-body zero (array items) b n stack t h l e = absurd h
  go-body (suc depth) (array items) b n stack t h l e =
      ap (λ u. go expect_value stack (b'[' ∷ u))
        (closing_text (items_text items true b (deeper b n)) (gap b n) b']' t)
      ∙ (go-array depth items b (deeper b n) stack (gap b n ++ b']' ∷ t) h (omega arith)
            (ends-gap b n b']' t refl) (starts-gap b n b']' t refl)
          ∙ (go-gap expect_comma_or_end (b'[' ∷ stack) b n (b']' ∷ t) ∙ go-close_array stack t))
  go-body zero (object members) b n stack t h l e = absurd h
  go-body (suc depth) (object members) b n stack t h l e =
      ap (λ u. go expect_value stack (b'{' ∷ u))
        (closing_text (fields_text members true b (deeper b n)) (gap b n) b'}' t)
      ∙ (go-object depth members b (deeper b n) stack (gap b n ++ b'}' ∷ t) h (omega arith)
            (ends-gap b n b'}' t refl) (starts-gap b n b'}' t refl)
          ∙ (go-gap expect_comma_or_end (b'{' ∷ stack) b n (b'}' ∷ t) ∙ go-close_object stack t))

  -- From the bracket of an array to the text behind its items.
  go-array :
      (depth : ℕ) (items : Items) (b : Bool) (n : ℕ) (stack : List ℕ) (t : Text)
      → AreWritable depth items
      → suc (length stack) + depth ≤ max_recursion_depth
      → ends_number t ≡ true
      → starts_with b']' (skip_whitespace t) ≡ true
      → go expect_value stack (b'[' ∷ items_text items true b n ++ t)
        ≡ go expect_comma_or_end (b'[' ∷ stack) t
  go-array depth no_items b n stack t h l e s = go-open_array stack t true (omega arith) s
  go-array depth (item v items) b n stack t h l e s =
      let rest = items_text items false b n ++ t in
      let o = opens-body depth v b n rest h.0 in
      ap (λ u. go expect_value stack (b'[' ∷ u))
        (item_text (gap b n) (body v b n) (items_text items false b n) t)
      ∙ (go-open_array stack (gap b n ++ (body v b n ++ rest)) false (omega arith) (
            ap (starts_with b']') (opens-skip b n (body v b n ++ rest) o)
            ∙ (opens-starts_with (body v b n ++ rest) o).0)
          ∙ (go-gap expect_value (b'[' ∷ stack) b n (body v b n ++ rest)
              ∙ (go-body depth v b n (b'[' ∷ stack) rest h.0 l (ends-items items b n t e)
                  ∙ go-items depth items b n stack t h.1 l e)))

  go-items :
      (depth : ℕ) (items : Items) (b : Bool) (n : ℕ) (stack : List ℕ) (t : Text)
      → AreWritable depth items
      → suc (length stack) + depth ≤ max_recursion_depth
      → ends_number t ≡ true
      → go expect_comma_or_end (b'[' ∷ stack) (items_text items false b n ++ t)
        ≡ go expect_comma_or_end (b'[' ∷ stack) t
  go-items depth no_items b n stack t h l e = refl
  go-items depth (item v items) b n stack t h l e =
      let rest = items_text items false b n ++ t in
      let o = opens-body depth v b n rest h.0 in
      ap (λ u. go expect_comma_or_end (b'[' ∷ stack) (b',' ∷ u))
        (item_text (gap b n) (body v b n) (items_text items false b n) t)
      ∙ (go-comma (b'[' ∷ stack) (gap b n ++ (body v b n ++ rest))
            (ap opens (opens-skip b n (body v b n ++ rest) o) ∙ o)
          ∙ (go-gap expect_value (b'[' ∷ stack) b n (body v b n ++ rest)
              ∙ (go-body depth v b n (b'[' ∷ stack) rest h.0 l (ends-items items b n t e)
                  ∙ go-items depth items b n stack t h.1 l e)))

  -- The same for an object.
  go-object :
      (depth : ℕ) (members : Fields) (b : Bool) (n : ℕ) (stack : List ℕ) (t : Text)
      → FieldsAreWritable depth members
      → suc (length stack) + depth ≤ max_recursion_depth
      → ends_number t ≡ true
      → starts_with b'}' (skip_whitespace t) ≡ true
      → go expect_value stack (b'{' ∷ fields_text members true b n ++ t)
        ≡ go expect_comma_or_end (b'{' ∷ stack) t
  go-object depth no_fields b n stack t h l e s = go-open_object stack t true (omega arith) s
  go-object depth (field key v members) b n stack t h l e s =
      let rest = fields_text members false b n ++ t in
      let named = quoted key ++ (colon b ++ (body v b n ++ rest)) in
      ap (λ u. go expect_value stack (b'{' ∷ u))
        (field_text (gap b n) (quoted key) (colon b) (body v b n) (fields_text members false b n) t)
      ∙ (go-open_object stack (gap b n ++ named) false (omega arith)
            (ap (starts_with b'}') (opens-skip b n named refl) ∙ (opens-starts_with named refl).1)
          ∙ (go-gap expect_key_or_end (b'{' ∷ stack) b n named
              ∙ (go-key key (b'{' ∷ stack) _ h.0
                  ∙ (go-colon b (b'{' ∷ stack) _
                      ∙ (go-body depth v b n (b'{' ∷ stack) rest h.1 l (ends-fields members b n t e)
                          ∙ go-fields depth members b n stack t h.2 l e)))))

  go-fields :
      (depth : ℕ) (members : Fields) (b : Bool) (n : ℕ) (stack : List ℕ) (t : Text)
      → FieldsAreWritable depth members
      → suc (length stack) + depth ≤ max_recursion_depth
      → ends_number t ≡ true
      → go expect_comma_or_end (b'{' ∷ stack) (fields_text members false b n ++ t)
        ≡ go expect_comma_or_end (b'{' ∷ stack) t
  go-fields depth no_fields b n stack t h l e = refl
  go-fields depth (field key v members) b n stack t h l e =
      let rest = fields_text members false b n ++ t in
      let named = quoted key ++ (colon b ++ (body v b n ++ rest)) in
      ap (λ u. go expect_comma_or_end (b'{' ∷ stack) (b',' ∷ u))
        (field_text (gap b n) (quoted key) (colon b) (body v b n) (fields_text members false b n) t)
      ∙ (go-comma (b'{' ∷ stack) (gap b n ++ named) (ap opens (opens-skip b n named refl))
          ∙ (go-gap expect_key_or_end (b'{' ∷ stack) b n named
              ∙ (go-key key (b'{' ∷ stack) _ h.0
                  ∙ (go-colon b (b'{' ∷ stack) _
                      ∙ (go-body depth v b n (b'{' ∷ stack) rest h.1 l (ends-fields members b n t e)
                          ∙ go-fields depth members b n stack t h.2 l e)))))

-- What the calls for a tree write, `validate` accepts, with and without indentation: the containers stand at
-- most as deep as the validator's stack allows, the scalars are texts of numbers, null or truth values, and
-- no key has a quote or a backslash. The strings are arbitrary.
pub validate-emit :
    (v : Json) (pretty : Bool)
    → IsWritable max_recursion_depth v
    → validate (output (emit v (initial pretty))) ≡ true
unfolding run loop
validate-emit v pretty h =
    ap validate (output-emit v pretty ∙ sym (append-nil (body v pretty 0)))
    ∙ (validate_lem (body v pretty 0 ++ [])
        ∙ go-body max_recursion_depth v pretty 0 [] [] h (omega arith) refl)
