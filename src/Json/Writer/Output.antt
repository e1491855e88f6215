-- ===== src/Json/Writer/Output.antt =====
-- What the visitor of src/ebus/utils/json_writer.cpp gets: the abstract view of a writer is the text so far,
-- whether the visitor has it or the buffer, and the settings.
use ebus.Base.{
  Bool, Bool-cases, List, [], append_assoc, append-nil, arith, inl, inr, length, leb, ltb, refl, ℕ,
  ◌++◌, ◌+◌, ◌∙◌, ◌∷◌, ◌≡◌, ap, sym,
}
use ebus.Json.{Text}
use ebus.Json.Writer.{JsonWriter, flush, write, write_all, writer_buffer_size}

abbrev pub concat : List Text → Text
concat [] = []
concat (s ∷ texts) = s ++ concat texts

abbrev pub output : JsonWriter → Text
output w = concat w.chunks ++ w.buffer

concat-append : (xs : List Text) (s : Text) → concat (xs ++ s ∷ []) ≡ concat xs ++ s
concat-append [] s = append-nil s
concat-append (x ∷ xs) s = rw (concat-append xs s, append_assoc x (concat xs) s) refl

pub record Page : Type 0 where
  pub text : Text
  pub first : Bool
  pub pretty : Bool
  pub indent_level : ℕ
  pub after_key : Bool

unfoldable pub view : JsonWriter → Page
view w = record {
  text = output w;
  first = w.first;
  pretty = w.pretty;
  indent_level = w.indent_level;
  after_key = w.after_key;
}

unfoldable pub append : Text → Page → Page
append s p = record p { text = p.text ++ s }

pub append-append : (s t : Text) (p : Page) → append t (append s p) ≡ append (s ++ t) p
unfolding append
append-append s t p = simp append_assoc refl

pub append_nothing : (p : Page) → append [] p ≡ p
unfolding append
append_nothing p = simp append-nil refl

no_length : (s : Text) → length s ≡ 0 → s ≡ []
no_length [] e = refl
no_length (c ∷ s) e = absurd (omega (arith, e))

flush-buffer : (w : JsonWriter) → (flush w).buffer ≡ []
unfolding flush
flush-buffer w = elim (Bool-cases (ltb 0 (length w.buffer))) [
  | inl some_bytes ↦ simp some_bytes refl
  | inr no_bytes ↦ simp no_bytes (no_length w.buffer (ground arith))
]

-- A flush moves bytes and loses none.
pub view-flush : (w : JsonWriter) → view (flush w) ≡ view w
unfolding flush view
view-flush w = elim (Bool-cases (ltb 0 (length w.buffer))) [
  | inl some_bytes ↦ simp (some_bytes, concat-append w.chunks w.buffer, append-nil) refl
  | inr no_bytes ↦ simp no_bytes refl
]

flush-chunks : (w : JsonWriter) → concat (flush w).chunks ≡ output w
unfolding view
flush-chunks w =
    sym (append-nil (concat (flush w).chunks))
    ∙ (ap (λ b. concat (flush w).chunks ++ b) (sym (flush-buffer w))
        ∙ ap (λ p. p.text) (view-flush w))

abbrev with_text : Page → Text → Page
with_text p t = record p { text = t }

flushed_page :
    (s t : Text) (w : JsonWriter)
    → t ≡ output w ++ s
    → with_text (view (flush w)) t ≡ append s (view w)
unfolding view append
flushed_page s t w e =
    ap (with_text (view (flush w))) e ∙ ap (λ p. with_text p (output w ++ s)) (view-flush w)

-- Whatever is written comes out behind what has been written before.
pub view-write : (s : Text) (w : JsonWriter) → view (write s w) ≡ append s (view w)
unfolding write append view
view-write s w = elim (Bool-cases (leb (length w.buffer + length s) writer_buffer_size)) [
  | inl fits ↦ simp (fits, append_assoc) refl
  | inr over ↦ elim (Bool-cases (ltb writer_buffer_size (length s))) [
    | inl long ↦
        simp (over, long)
          (flushed_page s _ w
            (simp (flush-buffer w, append-nil, concat-append) (ap (λ t. t ++ s) (flush-chunks w))))
    | inr short ↦
        simp (over, short)
          (flushed_page s _ w (simp (flush-buffer w) (ap (λ t. t ++ s) (flush-chunks w))))
  ]
]

pub view-write_all :
    (xs : List Text) (w : JsonWriter) → view (write_all xs w) ≡ append (concat xs) (view w)
unfolding write_all
view-write_all [] w = sym (append_nothing (view w))
view-write_all (s ∷ xs) w =
    rw (view-write_all xs (write s w), view-write s w) (append-append s (concat xs) (view w))
