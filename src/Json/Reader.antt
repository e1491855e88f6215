-- ===== src/Json/Reader.antt =====
-- include/ebus/detail/json_reader.hpp and src/ebus/utils/json_reader.cpp: the pull parser. The functions that
-- read are on the text behind a position, and give the text behind the position where they end.
pub mod Stream
pub mod Path
pub mod Chunks
pub mod Advance
pub mod Walk
pub mod Whole
use ebus.Base.{
  not, Bool, List, Option, [], drop, false, if◌then◌else◌, length, leb, ltb, none, some, suc, take,
  true, zero, ℕ, ◌&&◌, ◌+◌, ◌-◌, ◌==◌, ◌∷◌, ◌||◌,
}
use ebus.Json.{Text, is_digit, skip_whitespace}
use ebus.Json.Validate.{skip_literal, starts_with}

pub data Token : Type 0 where
  end : Token
  object_start : Token
  object_end : Token
  array_start : Token
  array_end : Token
  key : Token
  string : Token
  number : Token
  boolean : Token
  null : Token
  error : Token
  need_more_data : Token

-- The buffers of the streaming modes hold the same text as `json`. A fixed one has a capacity.
pub record JsonReader : Type 0 where
  pub json : Text
  pub pos : ℕ
  pub value : Text
  pub capacity : Option ℕ
  pub ended : Bool
  pub needs_more : Bool
  pub streaming : Bool
  pub rawvalue_start : ℕ
  pub rawvalue_in_progress : Bool
  pub skip_in_string : Bool
  pub skip_depth : ℕ

abbrev pub behind : JsonReader → Text
behind r = drop r.pos r.json

-- The position before the text.
abbrev pub at : Text → JsonReader → JsonReader
at text r = record r { pos = length r.json - length text }

-- `json_.substr(start, pos_ - start)`
abbrev pub between : ℕ → JsonReader → Text
between start r = take (r.pos - start) (drop start r.json)

abbrev pub prepend : ℕ → Option (Text × Text) → Option (Text × Text)
prepend c none = none
prepend c (some (s, rest)) = some (c ∷ s, rest)

-- The string and the text behind its closing quote. The number tells how many bytes of an escape sequence
-- are still to be passed over.
unfoldable pub read_string : ℕ → Text → Option (Text × Text)
read_string skip [] = none
read_string (suc skip) (c ∷ text) = prepend c (read_string skip text)
read_string zero (c ∷ text) =
    let escaped = prepend c (read_string (if starts_with b'u' text then 5 else 1) text) in
    let plain = prepend c (read_string 0 text) in
    if c == b'\\' then escaped else if c == b'"' then some ([], text) else plain

-- The characters of a number, and the text behind them.
abbrev pub is_numeric : ℕ → Bool
is_numeric c = is_digit c || (c == b'.' || (c == b'e' || (c == b'E' || (c == b'+' || c == b'-'))))

unfoldable pub skip_numeric : Text → Text
skip_numeric [] = []
skip_numeric (c ∷ text) = let rest = skip_numeric text in if is_numeric c then rest else c ∷ text

-- How the walk to the closing bracket ends.
pub data SkipEnd : Type 0 where
  closed : Text → SkipEnd
  pending : ℕ → Bool → Text → SkipEnd
  broken : SkipEnd

-- Outside of a string, inside of one, and behind a backslash there.
pub data Mode : Type 0 where
  outside : Mode
  inside : Mode
  escaping : Mode

abbrev pub mode_of : Bool → Mode
mode_of true = inside
mode_of false = outside

-- The loop of `skipToClosing`, byte by byte. A backslash at the end is left for the next chunk.
unfoldable pub skip_closing : Bool → ℕ → Mode → Text → SkipEnd
skip_closing ended zero mode text = closed text
skip_closing ended (suc depth) outside [] = pending (suc depth) false []
skip_closing ended (suc depth) inside [] = pending (suc depth) true []
skip_closing ended (suc depth) escaping [] =
    if ended then broken else pending (suc depth) true (b'\\' ∷ [])
skip_closing ended (suc depth) escaping (c ∷ text) = skip_closing ended (suc depth) inside text
skip_closing ended (suc depth) inside (c ∷ text) =
    let escaped = skip_closing ended (suc depth) escaping text in
    let left = skip_closing ended (suc depth) outside text in
    let same = skip_closing ended (suc depth) inside text in
    if c == b'\\' then escaped else if c == b'"' then left else same
skip_closing ended (suc depth) outside (c ∷ text) =
    let quoted = skip_closing ended (suc depth) inside text in
    let deeper = skip_closing ended (suc (suc depth)) outside text in
    let higher = skip_closing ended depth outside text in
    let same = skip_closing ended (suc depth) outside text in
    if c == b'"'
    then quoted
    else if c == b'{' || c == b'['
    then deeper
    else if c == b'}' || c == b']'
    then higher
    else same

unfoldable pub stop_at : JsonReader → SkipEnd → JsonReader
stop_at r (closed text) = record (at text r) {
  skip_in_string = false;
  skip_depth = 1;
  needs_more = false;
}
stop_at r (pending depth in_string text) = record (at text r) {
  needs_more = true;
  skip_in_string = in_string;
  skip_depth = depth;
}
stop_at r broken = at [] r

unfoldable pub skip_to_closing : JsonReader → JsonReader
skip_to_closing r =
    stop_at r (skip_closing r.ended r.skip_depth (mode_of r.skip_in_string) (behind r))

-- More data are needed, unless the input has ended.
unfoldable pub wait_or : Token → JsonReader → JsonReader × Token
wait_or token r = if r.ended then (r, token) else (record r { needs_more = true }, need_more_data)

-- `true`, `false` and `null`, behind the first byte: a text that is too short may still become one.
unfoldable pub next_literal : Text → Text → Token → JsonReader → JsonReader × Token
next_literal literal text token r = elim (skip_literal literal text) [
  | some rest ↦ let r' = at rest r in (record r' { value = between r.pos r' }, token)
  | none ↦
      if not r.ended && ltb (length text) (length literal)
      then (record r { needs_more = true }, need_more_data)
      else (r, error)
]

unfoldable pub next_string : Text → JsonReader → JsonReader × Token
next_string text r = elim (read_string 0 text) [
  | none ↦ wait_or error (record r { value = [] })
  | some (s, rest) ↦
      let r' = record r { value = s } in
      if starts_with b':' (skip_whitespace rest)
      then (at (skip_whitespace rest) r', key)
      else (at rest r', string)
]

unfoldable pub next_number : Text → JsonReader → JsonReader × Token
next_number text r =
    let rest = skip_numeric text in
    let r' = at rest r in
    if not r.ended && length rest == 0
    then (record r { needs_more = true }, need_more_data)
    else (record r' { value = between r.pos r' }, number)

-- The switch of `next`, at the byte `c` before `text`.
unfoldable pub next_at : ℕ → Text → JsonReader → JsonReader × Token
next_at c text r =
    if c == b'{'
    then (at text r, object_start)
    else if c == b'}'
    then (at text r, object_end)
    else if c == b'['
    then (at text r, array_start)
    else if c == b']'
    then (at text r, array_end)
    else if c == b'"'
    then next_string text r
    else if c == b't'
    then next_literal (b'r' ∷ b'u' ∷ b'e' ∷ []) text boolean r
    else if c == b'f'
    then next_literal (b'a' ∷ b'l' ∷ b's' ∷ b'e' ∷ []) text boolean r
    else if c == b'n'
    then next_literal (b'u' ∷ b'l' ∷ b'l' ∷ []) text null r
    else if is_digit c || c == b'-'
    then next_number text r
    else (r, error)

abbrev pub next_token : Text → JsonReader → JsonReader × Token
next_token [] r = wait_or error r
next_token (c ∷ text) r = next_at c text r

-- `next` once white space is skipped: a separator is passed over.
abbrev pub next_separated : Text → JsonReader → JsonReader × Token
next_separated [] r = wait_or end r
next_separated (c ∷ text) r =
    let r' = record r { needs_more = false } in
    let rest = skip_whitespace text in
    if c == b':' || c == b',' then next_token rest (at rest r') else next_at c text r'

unfoldable pub next : JsonReader → JsonReader × Token
next r = let text = skip_whitespace (behind r) in next_separated text (at text r)
