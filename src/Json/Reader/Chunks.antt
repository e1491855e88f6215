-- ===== src/Json/Reader/Chunks.antt =====
-- src/ebus/utils/json_reader.cpp: a container may come in several chunks. `skipToClosing` stops at the end of a
-- chunk and goes on when the next has been fed.
use ebus.Base.{
  Bool, Bool-cases, [], arith, append_assoc, drop, take, take-drop, drop-append, subst, false,
  if◌then◌else◌, inl, inr, length, length-append, none, refl, suc, true, zero, ℕ, ◌++◌, ◌-◌, ◌==◌,
  ◌∙◌, ◌∷◌, ◌||◌, ◌≡◌, ◌≤◌, ap, sym,
}
use ebus.Json.{Text}
use ebus.Json.Reader.{
  JsonReader, Mode, SkipEnd, behind, broken, closed, escaping, inside, mode_of, outside, pending,
  stop_at, skip_closing, skip_to_closing,
}
use ebus.Json.Reader.Stream.{append_chunk, feed, feed_into}

-- What becomes of the walk when more text is there.
abbrev resume : Text → SkipEnd → SkipEnd
resume t (closed u) = closed (u ++ t)
resume t (pending depth in_string u) = skip_closing false depth (mode_of in_string) (u ++ t)
resume t broken = broken

if-resume :
    (t : Text) (b : Bool) (x y x' y' : SkipEnd)
    → x ≡ resume t x'
    → y ≡ resume t y'
    → (if b then x else y) ≡ resume t (if b then x' else y')
if-resume t true x y x' y' e e' = e
if-resume t false x y x' y' e e' = e'

skip_closing-append :
    (depth : ℕ) (mode : Mode) (s t : Text)
    → skip_closing false depth mode (s ++ t) ≡ resume t (skip_closing false depth mode s)
unfolding skip_closing
skip_closing-append zero mode s t = refl
skip_closing-append (suc depth) outside [] t = refl
skip_closing-append (suc depth) inside [] t = refl
skip_closing-append (suc depth) escaping [] t = refl
skip_closing-append (suc depth) escaping (c ∷ s) t = skip_closing-append (suc depth) inside s t
skip_closing-append (suc depth) inside (c ∷ s) t =
    if-resume t (c == b'\\') _ _ _ _ (skip_closing-append (suc depth) escaping s t) (
      if-resume t (c == b'"') _ _ _ _ (skip_closing-append (suc depth) outside s t)
        (skip_closing-append (suc depth) inside s t))
skip_closing-append (suc depth) outside (c ∷ s) t =
    if-resume t (c == b'"') _ _ _ _ (skip_closing-append (suc depth) inside s t) (
      if-resume t (c == b'{' || c == b'[') _ _ _ _
        (skip_closing-append (suc (suc depth)) outside s t)
        (if-resume t (c == b'}' || c == b']') _ _ _ _ (skip_closing-append depth outside s t)
          (skip_closing-append (suc depth) outside s t)))

-- The walk stops at a suffix of the text, and does not break off while the input goes on.
abbrev StopsIn : Text → SkipEnd → Type 0
StopsIn s (closed u) = (p : Text) × (p ++ u ≡ s)
StopsIn s (pending depth in_string u) = (p : Text) × (p ++ u ≡ s)
StopsIn s broken = ⊥

StopsIn-cons : (c : ℕ) (s : Text) (x : SkipEnd) → StopsIn s x → StopsIn (c ∷ s) x
StopsIn-cons c s (closed u) h = (c ∷ h.0, ap (λ t. c ∷ t) h.1)
StopsIn-cons c s (pending depth in_string u) h = (c ∷ h.0, ap (λ t. c ∷ t) h.1)
StopsIn-cons c s broken h = h

abbrev before : Mode → Text → Text
before escaping s = b'\\' ∷ s
before mode s = s

if-StopsIn :
    (s : Text) (b : Bool) (x y : SkipEnd)
    → StopsIn s x
    → StopsIn s y
    → StopsIn s (if b then x else y)
if-StopsIn s true x y h h' = h
if-StopsIn s false x y h h' = h'

is_backslash : (c : ℕ) → c == b'\\' ≡ true → c ≡ b'\\'
is_backslash c h = ground arith

skip_closing-StopsIn :
    (depth : ℕ) (mode : Mode) (s : Text) → StopsIn (before mode s) (skip_closing false depth mode s)
unfolding skip_closing
skip_closing-StopsIn zero outside s = ([], refl)
skip_closing-StopsIn zero inside s = ([], refl)
skip_closing-StopsIn zero escaping s = (b'\\' ∷ [], refl)
skip_closing-StopsIn (suc depth) outside [] = ([], refl)
skip_closing-StopsIn (suc depth) inside [] = ([], refl)
skip_closing-StopsIn (suc depth) escaping [] = ([], refl)
skip_closing-StopsIn (suc depth) escaping (c ∷ s) =
    StopsIn-cons b'\\' _ _ (StopsIn-cons c s _ (skip_closing-StopsIn (suc depth) inside s))
skip_closing-StopsIn (suc depth) inside (c ∷ s) = elim (Bool-cases (c == b'\\')) [
  | inl backslash ↦ rw backslash (
      subst (λ d. StopsIn (d ∷ s) (skip_closing false (suc depth) escaping s))
        (sym (is_backslash c backslash)) (skip_closing-StopsIn (suc depth) escaping s))
  | inr other ↦ rw other (
      if-StopsIn (c ∷ s) (c == b'"') _ _
        (StopsIn-cons c s _ (skip_closing-StopsIn (suc depth) outside s))
        (StopsIn-cons c s _ (skip_closing-StopsIn (suc depth) inside s)))
]
skip_closing-StopsIn (suc depth) outside (c ∷ s) =
    if-StopsIn (c ∷ s) (c == b'"') _ _
      (StopsIn-cons c s _ (skip_closing-StopsIn (suc depth) inside s))
      (if-StopsIn (c ∷ s) (c == b'{' || c == b'[') _ _
        (StopsIn-cons c s _ (skip_closing-StopsIn (suc (suc depth)) outside s))
        (if-StopsIn (c ∷ s) (c == b'}' || c == b']') _ _
          (StopsIn-cons c s _ (skip_closing-StopsIn depth outside s))
          (StopsIn-cons c s _ (skip_closing-StopsIn (suc depth) outside s))))

drop_prefix : (p u : Text) → drop (length (p ++ u) - length u) (p ++ u) ≡ u
drop_prefix p u = ap (λ n. drop n (p ++ u)) (add-sub) ∙ drop-append p u
  where
    add-sub : length (p ++ u) - length u ≡ length p
    add-sub = omega (arith, length-append p u)

drop-append_le : (n : ℕ) (s t : Text) → n ≤ length s → drop n (s ++ t) ≡ drop n s ++ t
drop-append_le zero s t l = refl
drop-append_le (suc n) [] t l = absurd (omega arith)
drop-append_le (suc n) (c ∷ s) t l = drop-append_le n s t (omega arith)

-- The reader at a suffix of its text, once a chunk has been fed.
drop_fed :
    (s p u t : Text) (n : ℕ)
    → n ≤ length s
    → p ++ u ≡ drop n s
    → drop (length s - length u) (s ++ t) ≡ u ++ t
drop_fed s p u t n l e =
    ap (λ s. drop (length s - length u) (s ++ t)) (sym split)
    ∙ (drop-append_le (length (q ++ u) - length u) (q ++ u) t (omega arith)
        ∙ ap (λ v. v ++ t) (drop_prefix q u))
  where
    q : Text
    q = take n s ++ p

    split : q ++ u ≡ s
    split = append_assoc (take n s) p u ∙ (ap (λ v. take n s ++ v) e ∙ take-drop n s)

stop_at_same :
    (chunk u : Text) (depth : ℕ) (in_string : Bool) (r : JsonReader) (s : Text) (x : SkipEnd)
    → StopsIn s x
    → stop_at (append_chunk chunk (stop_at r (pending depth in_string u))) x
      ≡ stop_at (append_chunk chunk r) x
unfolding stop_at
stop_at_same chunk u depth in_string r s (closed v) h = refl
stop_at_same chunk u depth in_string r s (pending depth' in_string' v) h = refl
stop_at_same chunk u depth in_string r s broken h = absurd h

skip_to_closing_lem :
    (r : JsonReader) (t : Text)
    → r.ended ≡ false
    → behind r ≡ t
    → skip_to_closing r ≡ stop_at r (skip_closing false r.skip_depth (mode_of r.skip_in_string) t)
unfolding skip_to_closing
skip_to_closing_lem r t going_on e =
    ap (λ b. stop_at r (skip_closing b r.skip_depth (mode_of r.skip_in_string) (behind r))) going_on
    ∙ ap (λ t. stop_at r (skip_closing false r.skip_depth (mode_of r.skip_in_string) t)) e

feed_unlimited :
    (chunk : Text) (r : JsonReader)
    → r.streaming ≡ true
    → r.capacity ≡ none
    → feed chunk r ≡ append_chunk chunk r
unfolding feed feed_into
feed_unlimited chunk r streaming unlimited =
    ap (λ b. if b then feed_into r.capacity chunk r else r) streaming
    ∙ ap (λ c. feed_into c chunk r) unlimited

stop_at_settings :
    (r : JsonReader) (x : SkipEnd)
    → ((stop_at r x).streaming ≡ r.streaming) × ((stop_at r x).capacity ≡ r.capacity)
unfolding stop_at
stop_at_settings r (closed u) = (refl, refl)
stop_at_settings r (pending depth in_string u) = (refl, refl)
stop_at_settings r broken = (refl, refl)

stops_in :
    (depth : ℕ) (in_string : Bool) (s : Text)
    → StopsIn s (skip_closing false depth (mode_of in_string) s)
stops_in depth true s = skip_closing-StopsIn depth inside s
stops_in depth false s = skip_closing-StopsIn depth outside s

-- `walk` is the way that the reader goes before the chunk comes.
module _ (chunk : Text) (r : JsonReader) (within : r.pos ≤ length r.json)
    (going_on : r.ended ≡ false) where
  after_chunk :
      (x : SkipEnd)
      → skip_closing false r.skip_depth (mode_of r.skip_in_string) (behind r) ≡ x
      → StopsIn (behind r) x
      → (stop_at r x).needs_more ≡ true
      → skip_to_closing (append_chunk chunk (stop_at r x)) ≡ skip_to_closing (append_chunk chunk r)
  unfolding stop_at
  after_chunk (closed u) walk h waiting = absurd (cc waiting)
  after_chunk broken walk h waiting = absurd h
  after_chunk (pending depth in_string u) walk h waiting =
      let r' = stop_at r (pending depth in_string u) in
      let x = skip_closing false depth (mode_of in_string) (u ++ chunk) in
      skip_to_closing_lem (append_chunk chunk r') (u ++ chunk) going_on
        (drop_fed r.json h.0 u chunk r.pos within h.1)
      ∙ (stop_at_same chunk u depth in_string r _ x
            (skip_closing-StopsIn depth (mode_of in_string) (u ++ chunk))
          ∙ sym (
              skip_to_closing_lem (append_chunk chunk r) (behind r ++ chunk) going_on
                (drop-append_le r.pos r.json chunk within)
              ∙ ap (stop_at (append_chunk chunk r)) (
                  skip_closing-append r.skip_depth (mode_of r.skip_in_string) (behind r) chunk
                  ∙ ap (resume chunk) walk)))

  -- A reader that waits for more text in the middle of a container, and is fed a chunk, goes on to where it
  -- would have come had the chunk been there from the start: inside or outside of a string, behind a
  -- backslash, and at whatever depth.
  pub skip_to_closing-feed :
      r.streaming ≡ true
      → r.capacity ≡ none
      → (skip_to_closing r).needs_more ≡ true
      → skip_to_closing (feed chunk (skip_to_closing r)) ≡ skip_to_closing (feed chunk r)
  skip_to_closing-feed streaming unlimited waiting =
      let x = skip_closing false r.skip_depth (mode_of r.skip_in_string) (behind r) in
      let r' = stop_at r x in
      let stops = skip_to_closing_lem r (behind r) going_on refl in
      ap (λ s. skip_to_closing (feed chunk s)) stops
      ∙ (ap skip_to_closing (
            feed_unlimited chunk r' ((stop_at_settings r x).0 ∙ streaming)
              ((stop_at_settings r x).1 ∙ unlimited))
          ∙ (after_chunk x refl (stops_in r.skip_depth r.skip_in_string (behind r))
                (sym (ap (λ s. s.needs_more) stops) ∙ waiting)
              ∙ sym (ap skip_to_closing (feed_unlimited chunk r streaming unlimited))))
