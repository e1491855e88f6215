-- ===== src/Json/Tree/Print.antt =====
-- include/ebus/detail/json_writer.hpp: what the calls for a tree write is the text of the tree.
use ebus.Base.{
  Bool, [], append_assoc, append-nil, arith, false, if◌then◌else◌, ltb, not, refl, true, ℕ, ◌&&◌,
  ◌++◌, ◌+◌, ◌-◌, ◌<◌, ◌∙◌, ◌∷◌, ◌≡◌, ap, sym,
}
use ebus.Json.{Text}
use ebus.Json.Writer.{JsonWriter, initial}
use ebus.Json.Writer.Output.{Page, append, append_nothing, view, output}
use ebus.Json.Writer.Calls.{
  break_line, close_page, escape, indent, key_page, open_page, place, quoted, separate, set_out,
  settle, space, view-append_key, view-end_with, view-start, view-write_plain, view-write_string,
}
use ebus.Json.Tree.{
  Json, Items, Fields, scalar, string, array, object, no_items, item, no_fields, field, emit,
  emit_items, emit_fields, gap, deeper, separator, colon, body, items_text, fields_text,
}

abbrev page : Text → Bool → Bool → ℕ → Bool → Page
page t first pretty level after_key = record {
  text = t;
  first = first;
  pretty = pretty;
  indent_level = level;
  after_key = after_key;
}

append-if :
    (b : Bool) (s : Text) (p : Page)
    → (if b then append s p else p) ≡ append (if b then s else []) p
append-if true s p = refl
append-if false s p = sym (append_nothing p)

-- What `beforeValue` writes, and what `appendKey` writes.
abbrev pub lead : Bool → Bool → ℕ → Bool → Text
lead first pretty level after_key =
    separator first ++ (if pretty && not after_key && ltb 0 level then gap pretty level else [])

separate_lem :
    (t : Text) (f b : Bool) (n : ℕ) (k : Bool)
    → separate (page t f b n k) ≡ page (t ++ separator f) f b n k
unfolding separate append
separate_lem t true b n k = simp append-nil refl
separate_lem t false b n k = refl

indent_lem :
    (t : Text) (f b : Bool) (n : ℕ) (k : Bool)
    → indent (page t f b n k) ≡ page (t ++ gap b n) f b n k
unfolding indent append
indent_lem t f true n k = refl
indent_lem t f false n k = simp append-nil refl

laid :
    (t : Text) (f b : Bool) (n : ℕ) (k c : Bool)
    → (if c then indent (page t f b n k) else page t f b n k)
      ≡ page (t ++ (if c then gap b n else [])) f b n k
laid t f b n k true = indent_lem t f b n k
laid t f b n k false = simp append-nil refl

abbrev clear : Page → Page
clear p = record p { after_key = false }

place_lem :
    (t : Text) (f b : Bool) (n : ℕ) (k : Bool)
    → place (page t f b n k) ≡ page (t ++ lead f b n k) f b n false
unfolding place set_out
place_lem t f b n k =
    ap set_out (separate_lem t f b n k)
    ∙ (ap clear (laid (t ++ separator f) f b n k (b && not k && ltb 0 n))
        ∙ ap (λ t. page t f b n false) (append_assoc t (separator f) _))

written :
    (s t : Text) (f b : Bool) (n : ℕ) (k : Bool)
    → settle (append s (place (page t f b n k))) ≡ page (t ++ (lead f b n k ++ s)) false b n false
unfolding settle append
written s t f b n k =
    ap (λ p. settle (append s p)) (place_lem t f b n k)
    ∙ ap (λ t. page t false b n false) (append_assoc t (lead f b n k) s)

open_lem :
    (c : ℕ) (t : Text) (f b : Bool) (n : ℕ) (k : Bool)
    → open_page c (page t f b n k) ≡ page (t ++ (lead f b n k ++ c ∷ [])) true b (deeper b n) false
unfolding open_page append
open_lem c t f b n k =
    rw (place_lem t f b n k)
      (ap (λ t. page t true b (deeper b n) false) (append_assoc t (lead f b n k) (c ∷ [])))

add-sub : (n : ℕ) → n + 1 - 1 ≡ n
add-sub n = omega arith

close_lem :
    (c : ℕ) (t : Text) (f b : Bool) (n : ℕ)
    → close_page c (page t f b (deeper b n) false) ≡ page (t ++ (gap b n ++ c ∷ [])) false b n false
unfolding close_page append settle
close_lem c t f true n =
    ap (λ m. settle (append (c ∷ []) (indent (page t f true m false)))) (add-sub n)
    ∙ (ap (λ p. settle (append (c ∷ []) p)) (indent_lem t f true n false)
        ∙ ap (λ t. page t false true n false) (append_assoc t (gap true n) (c ∷ [])))
close_lem c t f false n = refl

key_lem :
    (key t : Text) (f b : Bool) (n : ℕ) (k : Bool)
    → key_page key (page t f b n k)
      ≡ page (t ++ (separator f ++ (gap b n ++ (quoted key ++ colon b)))) true b n true
unfolding key_page break_line space append
key_lem key t f true n k =
    rw (separate_lem t f true n k, indent_lem (t ++ separator f) f true n k)
      (simp append_assoc refl)
key_lem key t f false n k = rw (separate_lem t f false n k) (simp append_assoc refl)

some_level : (n : ℕ) → 0 < n → ltb 0 n ≡ true
some_level n h = ground arith

lead_item : (f b : Bool) (n : ℕ) → (b ≡ true → 0 < n) → lead f b n false ≡ separator f ++ gap b n
lead_item f true n h = rw (some_level n (h refl)) refl
lead_item f false n h = refl

lead_key : (b : Bool) (n : ℕ) → lead true b n true ≡ []
lead_key true n = refl
lead_key false n = refl

deeper_pos : (b : Bool) (n : ℕ) → b ≡ true → 0 < deeper b n
deeper_pos true n e = omega arith
deeper_pos false n e = absurd (cc e)

pub still_first : Bool → Items → Bool
still_first f no_items = f
still_first f (item v items) = still_first false items

pub still_first_field : Bool → Fields → Bool
still_first_field f no_fields = f
still_first_field f (field key v members) = still_first_field false members

mutual
  unfolding emit body still_first still_first_field

  -- The calls for a tree write what stands before a value and then the text of the tree, and leave the
  -- writer behind a value at the same level.
  pub view-emit :
      (v : Json) (w : JsonWriter) {t : Text} {f b : Bool} {n : ℕ} {k : Bool}
      → view w ≡ page t f b n k
      → view (emit v w) ≡ page (t ++ (lead f b n k ++ body v b n)) false b n false
  view-emit (scalar s) w {t} {f} {b} {n} {k} e =
      view-write_plain s w ∙ (ap (λ p. settle (append s (place p))) e ∙ written s t f b n k)
  view-emit (string s) w {t} {f} {b} {n} {k} e =
      view-write_string s w
      ∙ (ap (λ p. settle (append (quoted (escape s)) (place p))) e
          ∙ written (quoted (escape s)) t f b n k)
  view-emit (array items) w {t} {f} {b} {n} {k} e =
      view-end_with b']' _
      ∙ (ap (close_page b']') (
            view-emit_items items _
              (view-start b'[' w ∙ (ap (open_page b'[') e ∙ open_lem b'[' t f b n k))
              (deeper_pos b n))
          ∙ (close_lem b']' _ _ b n ∙ ap (λ t. page t false b n false) (simp append_assoc refl)))
  view-emit (object members) w {t} {f} {b} {n} {k} e =
      view-end_with b'}' _
      ∙ (ap (close_page b'}') (
            view-emit_fields members _
              (view-start b'{' w ∙ (ap (open_page b'{') e ∙ open_lem b'{' t f b n k))
              (deeper_pos b n))
          ∙ (close_lem b'}' _ _ b n ∙ ap (λ t. page t false b n false) (simp append_assoc refl)))

  view-emit_items :
      (items : Items) (w : JsonWriter) {t : Text} {f b : Bool} {n : ℕ}
      → view w ≡ page t f b n false
      → (b ≡ true → 0 < n)
      → view (emit_items items w)
        ≡ page (t ++ items_text items f b n) (still_first f items) b n false
  view-emit_items no_items w {t} {f} {b} {n} e h =
      e ∙ ap (λ t. page t f b n false) (sym (append-nil t))
  view-emit_items (item v items) w {t} {f} {b} {n} e h =
      view-emit_items items (emit v w) (view-emit v w e) h
      ∙ ap (λ t. page t (still_first false items) b n false)
          (rw (lead_item f b n h) (simp append_assoc refl))

  view-emit_fields :
      (members : Fields) (w : JsonWriter) {t : Text} {f b : Bool} {n : ℕ}
      → view w ≡ page t f b n false
      → (b ≡ true → 0 < n)
      → view (emit_fields members w)
        ≡ page (t ++ fields_text members f b n) (still_first_field f members) b n false
  view-emit_fields no_fields w {t} {f} {b} {n} e h =
      e ∙ ap (λ t. page t f b n false) (sym (append-nil t))
  view-emit_fields (field key v members) w {t} {f} {b} {n} e h =
      view-emit_fields members _
        (view-emit v _ (view-append_key key w ∙ (ap (key_page key) e ∙ key_lem key t f b n false)))
        h
      ∙ ap (λ t. page t (still_first_field false members) b n false)
          (rw (lead_key b n) (simp append_assoc refl))

lead_top : (b : Bool) → lead true b 0 false ≡ []
lead_top true = refl
lead_top false = refl

-- A tree written by a new writer comes out as its text, with and without indentation, whatever part
-- of it goes through the buffer and whatever passes the buffer by.
pub output-emit : (v : Json) (pretty : Bool) → output (emit v (initial pretty)) ≡ body v pretty 0
unfolding view
output-emit v pretty =
    ap (λ p. p.text) (view-emit v (initial pretty) {t = []} refl)
    ∙ ap (λ l. l ++ body v pretty 0) (lead_top pretty)
