-- ===== src/Json/Reader/Advance.antt =====
-- src/ebus/utils/json_reader.cpp: every token of `next` but the last takes a byte.
use ebus.Base.{
  Bool, Option, [], arith, false, if◌then◌else◌, length, length-drop, ltb, none, not, refl, some,
  suc, true, zero, ℕ, ◌&&◌, ◌-◌, ◌<◌, ◌==◌, ◌∷◌, ◌||◌, ◌≡◌, ◌≤◌, ap,
}
use ebus.Json.{Text, is_digit, skip_whitespace}
use ebus.Json.Reader.{
  JsonReader, Token, at, behind, end, error, next, next_at, next_literal, next_number,
  next_separated, next_string, next_token, prepend, read_string, skip_numeric, wait_or, between,
  key, string, boolean, null, array_end, array_start, object_end, object_start, need_more_data,
  number,
}
use ebus.Json.Reader.Path.{is_stop}
use ebus.Json.Validate.{skip_literal, starts_with}
use ebus.Json.Validate.Shortens.{Shortens, length-skip_whitespace, skip_literal-Shortens}

length-behind-at :
    (t : Text) (r : JsonReader) → length t ≤ length r.json → length (behind (at t r)) ≡ length t
length-behind-at t r l = omega (arith, length-drop (length r.json - length t) r.json)

length-behind : (r : JsonReader) → length (behind r) ≤ length r.json
length-behind r = omega (arith, length-drop r.pos r.json)

length-skip_numeric : (t : Text) → length (skip_numeric t) ≤ length t
unfolding skip_numeric
length-skip_numeric [] = omega arith
length-skip_numeric (c ∷ t) = ground (arith, length-skip_numeric t)

-- The text behind a string is no longer than the text that it stands in.
abbrev ReadsOver : ℕ → Option (Text × Text) → Type 0
ReadsOver n res = (s t : Text) → res ≡ some (s, t) → length t ≤ n

prepend-ReadsOver :
    (n c : ℕ) (res : Option (Text × Text)) → ReadsOver n res → ReadsOver (suc n) (prepend c res)
prepend-ReadsOver n c none h s t e = absurd (cc e)
prepend-ReadsOver n c (some (s', t')) h s t e = ground (arith, h s' t')

read_string-ReadsOver : (k : ℕ) (t : Text) → ReadsOver (length t) (read_string k t)
unfolding read_string
read_string-ReadsOver k [] s u e = absurd (cc e)
read_string-ReadsOver (suc k) (c ∷ t) s u e =
    prepend-ReadsOver (length t) c _ (read_string-ReadsOver k t) s u e
read_string-ReadsOver zero (c ∷ t) s u e =
    if-ReadsOver (c == b'\\') _ _
      (prepend-ReadsOver (length t) c _
        (read_string-ReadsOver (if starts_with b'u' t then 5 else 1) t))
      (if-ReadsOver (c == b'"') _ _ (some-ReadsOver t)
        (prepend-ReadsOver (length t) c _ (read_string-ReadsOver 0 t)))
      s u e
  where
    if-ReadsOver :
        (b : Bool) (x y : Option (Text × Text))
        → ReadsOver (suc (length t)) x
        → ReadsOver (suc (length t)) y
        → ReadsOver (suc (length t)) (if b then x else y)
    if-ReadsOver true x y h h' = h
    if-ReadsOver false x y h h' = h'

    some-ReadsOver : (t : Text) → ReadsOver (suc (length t)) (some ([], t))
    some-ReadsOver t s u e = ground arith

-- A token that is no last one leaves a text shorter than `n`.
abbrev pub Advances : ℕ → JsonReader × Token → Type 0
Advances n res = is_stop res.1 ≡ false → length (behind res.0) < n

if-Advances :
    (n : ℕ) (b : Bool) (x y : JsonReader × Token)
    → Advances n x
    → Advances n y
    → Advances n (if b then x else y)
if-Advances n true x y h h' = h
if-Advances n false x y h h' = h'

stop-Advances : (n : ℕ) (res : JsonReader × Token) → is_stop res.1 ≡ true → Advances n res
stop-Advances n res s h = absurd (cc (s, h))

wait_or-Advances :
    (n : ℕ) (token : Token) (r : JsonReader) → is_stop token ≡ true → Advances n (wait_or token r)
unfolding wait_or
wait_or-Advances n token r s =
    if-Advances n r.ended _ _ (stop-Advances n (r, token) s)
      (stop-Advances n (record r { needs_more = true }, need_more_data) refl)

-- A reader at a byte that stands before `text`.
module _ (text : Text) (r : JsonReader) (within : length text < length r.json) where
  abbrev n : ℕ
  n = suc (length text)

  at-Advances :
      (t : Text) (r' : JsonReader) (token : Token)
      → length t ≤ length text
      → r'.json ≡ r.json
      → Advances n (at t r', token)
  at-Advances t r' token l same h = omega (arith, length-behind-at t r', ap length same)

  next_string-Advances : Advances n (next_string text r)
  unfolding next_string
  next_string-Advances = cases (read_string 0 text) (read_string-ReadsOver 0 text)
    where
      cases :
          (res : Option (Text × Text))
          → ReadsOver (length text) res
          → Advances n (elim res [
            | none ↦ wait_or error (record r { value = [] })
            | some (s, rest) ↦
                let r' = record r { value = s } in
                if starts_with b':' (skip_whitespace rest)
                then (at (skip_whitespace rest) r', key)
                else (at rest r', string)
          ])
      cases none shorter = wait_or-Advances n error _ refl
      cases (some (s, rest)) shorter =
          let l = shorter s rest refl in
          let r' = record r { value = s } in
          if-Advances n (starts_with b':' (skip_whitespace rest))
            (at (skip_whitespace rest) r', key) (at rest r', string)
            (at-Advances (skip_whitespace rest) r' key (omega (arith, length-skip_whitespace rest))
              refl)
            (at-Advances rest r' string l refl)

  next_literal-Advances :
      (literal : Text) (token : Token) → Advances n (next_literal literal text token r)
  unfolding next_literal
  next_literal-Advances literal token =
      cases (skip_literal literal text) (skip_literal-Shortens literal text)
    where
      cases :
          (res : Option Text)
          → Shortens (length text) res
          → Advances n (elim res [
            | some rest ↦ let r' = at rest r in (record r' { value = between r.pos r' }, token)
            | none ↦
                if not r.ended && ltb (length text) (length literal)
                then (record r { needs_more = true }, need_more_data)
                else (r, error)
          ])
      cases none shorter =
          if-Advances n (not r.ended && ltb (length text) (length literal)) _ _
            (stop-Advances n (record r { needs_more = true }, need_more_data) refl)
            (stop-Advances n (r, error) refl)
      cases (some rest) shorter = at-Advances rest r token (shorter rest refl) refl

  next_number-Advances : Advances n (next_number text r)
  unfolding next_number
  next_number-Advances =
      if-Advances n (not r.ended && length (skip_numeric text) == 0) _ _
        (stop-Advances n (record r { needs_more = true }, need_more_data) refl)
        (at-Advances (skip_numeric text) r number (length-skip_numeric text) refl)

  next_at-Advances : (c : ℕ) → Advances n (next_at c text r)
  unfolding next_at
  next_at-Advances c =
      if-Advances n (c == b'{') _ _ (at-Advances text r object_start (omega arith) refl) (
        if-Advances n (c == b'}') _ _ (at-Advances text r object_end (omega arith) refl) (
          if-Advances n (c == b'[') _ _ (at-Advances text r array_start (omega arith) refl) (
            if-Advances n (c == b']') _ _ (at-Advances text r array_end (omega arith) refl) (
              if-Advances n (c == b'"') _ _ next_string-Advances (
                if-Advances n (c == b't') _ _
                  (next_literal-Advances (b'r' ∷ b'u' ∷ b'e' ∷ []) boolean)
                  (if-Advances n (c == b'f') _ _
                    (next_literal-Advances (b'a' ∷ b'l' ∷ b's' ∷ b'e' ∷ []) boolean)
                    (if-Advances n (c == b'n') _ _
                      (next_literal-Advances (b'u' ∷ b'l' ∷ b'l' ∷ []) null)
                      (if-Advances n (is_digit c || c == b'-') _ _ next_number-Advances
                        (stop-Advances n (r, error) refl)))))))))

-- The reader once its white space is skipped.
next_token-Advances :
    (t : Text) (r : JsonReader) → length t ≤ length r.json → Advances (length t) (next_token t r)
next_token-Advances [] r l = wait_or-Advances 0 error r refl
next_token-Advances (c ∷ t) r l = next_at-Advances t r (omega arith) c

weaken-Advances : (m n : ℕ) (res : JsonReader × Token) → m ≤ n → Advances m res → Advances n res
weaken-Advances m n res l a h = omega (arith, a h)

next_separated-Advances :
    (t : Text) (r : JsonReader)
    → length t ≤ length r.json
    → Advances (length t) (next_separated t r)
next_separated-Advances [] r l = wait_or-Advances 0 end r refl
next_separated-Advances (c ∷ t) r l =
    let r' = record r { needs_more = false } in
    let rest = skip_whitespace t in
    let shorter = length-skip_whitespace t in
    if-Advances (suc (length t)) (c == b':' || c == b',') (next_token rest (at rest r'))
      (next_at c t r')
      (weaken-Advances (length rest) (suc (length t)) (next_token rest (at rest r'))
        (omega (arith, shorter)) (next_token-Advances rest (at rest r') (omega (arith, shorter))))
      (next_at-Advances t r' (omega arith) c)

-- Every token but the last takes a byte.
pub next-Advances : (r : JsonReader) → Advances (length (behind r)) (next r)
unfolding next
next-Advances r =
    let t = skip_whitespace (behind r) in
    let shorter = length-skip_whitespace (behind r) in
    weaken-Advances (length t) (length (behind r)) (next_separated t (at t r)) shorter
      (next_separated-Advances t (at t r) (omega (arith, shorter, length-behind r)))
