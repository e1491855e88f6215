-- ===== src/Json/Writer/Calls.antt =====
-- src/ebus/utils/json_writer.cpp and include/ebus/detail/json_writer.hpp: each call of the writer on the
-- abstract view.
use ebus.Base.{
  Bool, Bool-cases, List, [], append_assoc, arith, false, if◌then◌else◌, inl, inr, length, ltb, not,
  refl, true, ℕ, ◌++◌, ◌+◌, ◌∙◌, ◌∷◌, ◌≡◌, ap, zero, suc, replicate, ◌==◌, ◌*◌, ◌&&◌, ◌-◌,
}
use ebus.Json.{Text}
use ebus.Json.Writer.{
  JsonWriter, flush, write, write_all, escaped, escaped_pieces, write_escaped, write_indent,
  indent_spaces, write_comma, lay_out, before_value, after_value, start, end_with, append_key,
  write_string, write_plain,
}
use ebus.Json.Writer.Output.{
  Page, view, append, append-append, concat, view-write, view-flush, view-write_all,
}

-- The text of a string, byte by byte.
unfoldable pub escape : Text → Text
escape [] = []
escape (c ∷ s) = (if length (escaped c) == 0 then c ∷ [] else escaped c) ++ escape s

some_length {ℓ} : {A : Type ℓ} (x : A) (xs : List A) → ltb 0 (length (x ∷ xs)) ≡ true
some_length x xs = ground arith

concat_kept :
    (kept t : Text) (later : List Text)
    → concat (if ltb 0 (length kept) then kept ∷ t ∷ later else t ∷ later)
      ≡ kept ++ (t ++ concat later)
concat_kept [] t later = refl
concat_kept (k ∷ kept) t later = rw (some_length k kept)

concat-escaped_pieces : (kept s : Text) → concat (escaped_pieces kept s) ≡ kept ++ escape s
unfolding escaped_pieces escape
concat-escaped_pieces [] [] = refl
concat-escaped_pieces (k ∷ kept) [] = rw (some_length k kept)
concat-escaped_pieces kept (c ∷ s) = elim (Bool-cases (length (escaped c) == 0)) [
  | inl plain ↦
      rw plain (concat-escaped_pieces (kept ++ c ∷ []) s ∙ append_assoc kept (c ∷ []) (escape s))
  | inr special ↦ rw special (
      concat_kept kept (escaped c) (escaped_pieces [] s)
      ∙ ap (λ t. kept ++ (escaped c ++ t)) (concat-escaped_pieces [] s))
]

pub view-write_escaped :
    (s : Text) (w : JsonWriter) → view (write_escaped s w) ≡ append (escape s) (view w)
unfolding write_escaped
view-write_escaped s w =
    view-write_all (escaped_pieces [] s) w
    ∙ ap (λ t. append t (view w)) (concat-escaped_pieces [] s)

abbrev pub spaces : ℕ → Text
spaces level = replicate (level * indent_spaces) b' '

concat-replicate : (n : ℕ) → concat (replicate n (b' ' ∷ [])) ≡ replicate n b' '
concat-replicate zero = refl
concat-replicate (suc n) = ap (λ t. b' ' ∷ t) (concat-replicate n)

view-if :
    (b : Bool) (w w' : JsonWriter) {p p' : Page}
    → view w ≡ p
    → view w' ≡ p'
    → view (if b then w else w') ≡ (if b then p else p')
view-if true w w' e e' = e
view-if false w w' e e' = e'

unfoldable pub indent : Page → Page
indent p = if p.pretty then append (b'\n' ∷ spaces p.indent_level) p else p

pub view-write_indent : (w : JsonWriter) → view (write_indent w) ≡ indent (view w)
unfolding write_indent indent view
view-write_indent w =
    view-if w.pretty (write_all spaces_of (write (b'\n' ∷ []) w)) w
      (view-write_all spaces_of (write (b'\n' ∷ []) w)
        ∙ (ap (append _) (view-write (b'\n' ∷ []) w)
            ∙ (append-append (b'\n' ∷ []) (concat spaces_of) (view w)
                ∙ ap (λ t. append (b'\n' ∷ t) (view w))
                    (concat-replicate (w.indent_level * indent_spaces)))))
      refl
  where
    spaces_of : List Text
    spaces_of = replicate (w.indent_level * indent_spaces) (b' ' ∷ [])

unfoldable pub break_line : Page → Page
break_line p = if p.pretty then indent p else p

view-break_line :
    (w : JsonWriter) → view (if w.pretty then write_indent w else w) ≡ break_line (view w)
unfolding break_line view
view-break_line w = view-if w.pretty (write_indent w) w (view-write_indent w) refl

unfoldable pub space : Page → Page
space p = if p.pretty then append (b' ' ∷ []) p else p

view-space : (w : JsonWriter) → view (if w.pretty then write (b' ' ∷ []) w else w) ≡ space (view w)
unfolding space view
view-space w = view-if w.pretty (write (b' ' ∷ []) w) w (view-write (b' ' ∷ []) w) refl

unfoldable pub separate : Page → Page
separate p = if p.first then p else append (b',' ∷ []) p

pub view-write_comma : (w : JsonWriter) → view (write_comma w) ≡ separate (view w)
unfolding write_comma separate view
view-write_comma w = view-if w.first w (write (b',' ∷ []) w) refl (view-write (b',' ∷ []) w)

abbrev clear : Page → Page
clear p = record p { after_key = false }

unfoldable pub set_out : Page → Page
set_out p = clear (if p.pretty && not p.after_key && ltb 0 p.indent_level then indent p else p)

pub view-lay_out : (w : JsonWriter) → view (lay_out w) ≡ set_out (view w)
unfolding lay_out set_out view
view-lay_out w = ap clear (
    view-if (w.pretty && not w.after_key && ltb 0 w.indent_level) (write_indent w) w
      (view-write_indent w) refl)

unfoldable pub place : Page → Page
place p = set_out (separate p)

pub view-before_value : (w : JsonWriter) → view (before_value w) ≡ place (view w)
unfolding before_value place
view-before_value w = view-lay_out (write_comma w) ∙ ap set_out (view-write_comma w)

unfoldable pub settle : Page → Page
settle p = record p { first = false; after_key = false }

view-after_value : (w : JsonWriter) {p : Page} → view w ≡ p → view (after_value w) ≡ settle p
unfolding settle view
view-after_value w e = ap settle e

pub view-write_plain :
    (t : Text) (w : JsonWriter) → view (write_plain t w) ≡ settle (append t (place (view w)))
unfolding write_plain
view-write_plain t w =
    view-after_value _ (view-write t (before_value w) ∙ ap (append t) (view-before_value w))

abbrev pub quoted : Text → Text
quoted t = b'"' ∷ t ++ b'"' ∷ []

view-quoted :
    (s : Text) (w : JsonWriter)
    → view (write (b'"' ∷ []) (write_escaped s (write (b'"' ∷ []) w)))
      ≡ append (quoted (escape s)) (view w)
view-quoted s w =
    view-write (b'"' ∷ []) _
    ∙ (ap (append (b'"' ∷ [])) (view-write_escaped s _)
        ∙ (append-append (escape s) (b'"' ∷ []) _
            ∙ (ap (append (escape s ++ b'"' ∷ [])) (view-write (b'"' ∷ []) w)
                ∙ append-append (b'"' ∷ []) (escape s ++ b'"' ∷ []) (view w))))

pub view-write_string :
    (s : Text) (w : JsonWriter)
    → view (write_string s w) ≡ settle (append (quoted (escape s)) (place (view w)))
unfolding write_string
view-write_string s w =
    view-after_value _
      (view-quoted s (before_value w) ∙ ap (append (quoted (escape s))) (view-before_value w))

abbrev opened : Page → Page
opened p = record p {
  first = true;
  indent_level = if p.pretty then p.indent_level + 1 else p.indent_level;
}

-- The page on which a container has been opened, or is closed.
unfoldable pub open_page : ℕ → Page → Page
open_page opening p = opened (append (opening ∷ []) (place p))

pub view-start : (c : ℕ) (w : JsonWriter) → view (start c w) ≡ open_page c (view w)
unfolding start open_page view
view-start c w =
    ap opened (view-write (c ∷ []) (before_value w) ∙ ap (append (c ∷ [])) (view-before_value w))

abbrev outdented : Page → Page
outdented p = record p { indent_level = p.indent_level - 1 }

unfoldable pub close_page : ℕ → Page → Page
close_page closing p = settle (append (closing ∷ []) (if p.pretty then indent (outdented p) else p))

pub view-end_with : (c : ℕ) (w : JsonWriter) → view (end_with c w) ≡ close_page c (view w)
unfolding end_with close_page view
view-end_with c w = view-after_value (flush (write (c ∷ []) w')) (
    view-flush (write (c ∷ []) w')
    ∙ (view-write (c ∷ []) w'
        ∙ ap (append (c ∷ []))
            (view-if w.pretty (write_indent out) w (view-write_indent out) refl)))
  where
    out : JsonWriter
    out = record w { indent_level = w.indent_level - 1 }

    w' : JsonWriter
    w' = if w.pretty then write_indent out else w

abbrev keyed : Page → Page
keyed p = record p { first = true; after_key = true }

unfoldable pub key_page : Text → Page → Page
key_page key p = keyed (space (append (quoted key ++ b':' ∷ []) (break_line (separate p))))

view-named :
    (key : Text) (w : JsonWriter)
    → view (write (b'"' ∷ b':' ∷ []) (write key (write (b'"' ∷ []) w)))
      ≡ append (quoted key ++ b':' ∷ []) (view w)
view-named key w =
    view-write (b'"' ∷ b':' ∷ []) _
    ∙ (ap (append (b'"' ∷ b':' ∷ []))
          (view-write key _ ∙ ap (append key) (view-write (b'"' ∷ []) w))
        ∙ rw (append-append, append-append, append_assoc))

pub view-append_key :
    (key : Text) (w : JsonWriter) → view (append_key key w) ≡ key_page key (view w)
unfolding append_key key_page view
view-append_key key w = ap keyed (
    view-space _
    ∙ ap space (
        view-named key _
        ∙ ap (append (quoted key ++ b':' ∷ []))
            (view-break_line (write_comma w) ∙ ap break_line (view-write_comma w))))
