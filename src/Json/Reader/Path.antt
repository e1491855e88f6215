-- ===== src/Json/Reader/Path.antt =====
-- src/ebus/utils/json_reader.cpp and include/ebus/detail/json_reader.hpp: the operations on whole values, the
-- search for a key and the walk along a path. A loop has fuel, and `none` tells that it ran out.
pub mod Termination
use ebus.Base.{
  not, Bool, List, Option, [], false, if◌then◌else◌, length, leb, ltb, none, some, suc, true, zero,
  ℕ, ◌&&◌, ◌++◌, ◌*◌, ◌+◌, ◌-◌, ◌<◌, ◌==◌, ◌^◌, ◌∷◌, ◌||◌,
}
use ebus.Json.{Text, is_digit, skip_whitespace}
use ebus.Json.Reader.{
  JsonReader, Token, array_end, array_start, at, behind, between, end, error, key, need_more_data,
  next, object_end, object_start, skip_to_closing, starts_with,
}

abbrev pub is_start : Token → Bool
is_start object_start = true
is_start array_start = true
is_start token = false

-- `end`, `error` and `need_more_data`
abbrev pub is_stop : Token → Bool
is_stop end = true
is_stop error = true
is_stop need_more_data = true
is_stop token = false

abbrev pub is_end : Token → Bool
is_end object_end = true
is_end array_end = true
is_end token = false

abbrev pub skip_separator : Text → Text
skip_separator [] = []
skip_separator (c ∷ text) = if c == b':' || c == b',' then skip_whitespace text else c ∷ text

-- `rawValue` behind the token that `next` gives.
unfoldable pub raw_token : ℕ → JsonReader → Token → JsonReader × Text
raw_token start r need_more_data = (r, [])
raw_token start r end = (r, [])
raw_token start r error = (r, [])
raw_token start r token =
    let closed = skip_to_closing r in
    if is_start token
    then if closed.needs_more
      then (record closed { rawvalue_start = start; rawvalue_in_progress = true }, [])
      else (closed, between start closed)
    else (r, between start r)

unfoldable pub raw_value : JsonReader → JsonReader × Text
raw_value r =
    let closed = skip_to_closing r in
    let text = skip_separator (skip_whitespace (behind r)) in
    let r' = at text r in
    let (r'', token) = next r' in
    if r.rawvalue_in_progress
    then if closed.needs_more
      then (closed, [])
      else (record closed { rawvalue_in_progress = false }, between r.rawvalue_start closed)
    else raw_token r'.pos r'' token

abbrev pub skip_composite : Token → JsonReader → JsonReader
skip_composite token r = if is_start token then skip_to_closing r else r

unfoldable pub skip_value : JsonReader → JsonReader
skip_value r = let (r', token) = next r in skip_composite token r'

abbrev pub is_equal : Text → Text → Bool
is_equal [] [] = true
is_equal (c ∷ s) (d ∷ t) = c == d && is_equal s t
is_equal s t = false

abbrev pub is_key : Token → Bool
is_key key = true
is_key token = false

-- What a turn of the loop of `findKey` decides on a token.
pub data Turn : Type 0 where
  found : Turn
  missing : Turn
  continue_at : ℕ → Turn

unfoldable pub find_turn : Text → ℕ → JsonReader → Token → Turn
find_turn target depth r token =
    if is_stop token
    then missing
    else if is_start token
    then continue_at (suc depth)
    else if is_end token
    then if depth == 0 then missing else continue_at (depth - 1)
    else if is_key token && (depth == 0 && is_equal r.value target)
    then found
    else continue_at depth

unfoldable pub find_key : ℕ → Text → ℕ → JsonReader → Option (JsonReader × Bool)
find_key zero target depth r = none
find_key (suc fuel) target depth r = elim (find_turn target depth (next r).0 (next r).1) [
  | found ↦ some ((next r).0, true)
  | missing ↦ some ((next r).0, false)
  | continue_at depth' ↦ find_key fuel target depth' (next r).0
]

-- `findKey`: the text behind the position, and one turn more for its end, are fuel enough.
unfoldable pub find : Text → JsonReader → Option (JsonReader × Bool)
find target r = find_key (length (behind r) + 1) target 0 r

-- std::from_chars, for a size_t that is less than the limit.
abbrev pub digits_value : ℕ → ℕ → Text → Option ℕ
digits_value limit acc [] = if ltb acc limit then some acc else none
digits_value limit acc (c ∷ s) =
    let rest = digits_value limit (acc * 10 + (c - b'0')) s in if is_digit c then rest else none

abbrev pub parse_index : ℕ → Text → Option ℕ
parse_index limit [] = none
parse_index limit (c ∷ s) = digits_value limit 0 (c ∷ s)

abbrev pub skip_values : ℕ → JsonReader → JsonReader
skip_values zero r = r
skip_values (suc n) r = skip_values n (skip_value r)

-- The segments of a path, which its dots separate.
abbrev pub split_path : Text → Text → List Text
split_path segment [] = segment ∷ []
split_path segment (c ∷ path) =
    let next_segment = segment ∷ split_path [] path in
    let longer = split_path (segment ++ c ∷ []) path in if c == b'.' then next_segment else longer

unfoldable pub reset : JsonReader → JsonReader
reset r =
    let r' = record r {
      json = if r.streaming then [] else r.json;
      pos = 0;
      value = [];
      needs_more = false;
      rawvalue_start = 0;
      rawvalue_in_progress = false;
      skip_in_string = false;
      skip_depth = 1;
    } in
    at (skip_whitespace r'.json) r'

-- The reader before the value of a segment, in a container of the given kind, and whether there is one.
unfoldable pub enter : ℕ → Token → Text → JsonReader → JsonReader × Bool
enter limit object_start segment r = elim (find segment r) [ none ↦ (r, false) | some res ↦ res ]
enter limit array_start segment r = elim (parse_index limit segment) [
  | none ↦ (r, false)
  | some index ↦ (skip_values index r, true)
]
enter limit token segment r = (r, false)

-- The tokens that are no value of a container.
abbrev pub is_refused : Token → Token → Bool
is_refused array_start array_end = true
is_refused array_start end = true
is_refused array_start error = true
is_refused container need_more_data = true
is_refused container token = false

unfoldable pub walk : ℕ → Token → List Text → JsonReader → JsonReader × Token
walk limit container [] r = (r, error)
walk limit container (segment ∷ segments) r =
    let (r', there) = enter limit container segment r in
    let (r'', token) = next r' in
    let deeper = walk limit token segments r'' in
    if not there
    then (r', error)
    else if is_refused container token
    then (r'', error)
    else if length segments == 0
    then (r'', token)
    else if is_start token
    then deeper
    else (r'', error)

-- `get`
unfoldable pub get : ℕ → Text → JsonReader → JsonReader × Token
get limit path r =
    let (r', token) = next (reset r) in
    if is_start token then walk limit token (split_path [] path) r' else (r', error)
