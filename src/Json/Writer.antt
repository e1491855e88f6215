-- ===== src/Json/Writer.antt =====
-- include/ebus/detail/json_writer.hpp and src/ebus/utils/json_writer.cpp: the writer. What the visitor has
-- been given is the list of its chunks, oldest first, and the used part of the buffer is a list. The text
-- of a number, which std::to_chars and formatFloat give, is an argument. The ends of containers are as many
-- as the starts, so that the level of the indentation stays above 0.
pub mod Output
pub mod Calls
use ebus.Base.{
  Bool, List, [], drop, false, if◌then◌else◌, length, leb, ltb, not, replicate, suc, take, true,
  zero, ℕ, ◌%◌, ◌&&◌, ◌*◌, ◌++◌, ◌+◌, ◌-◌, ◌/◌, ◌==◌, ◌∷◌, ◌||◌,
}
use ebus.Json.{Text}

abbrev pub writer_buffer_size : ℕ
writer_buffer_size = 128

abbrev pub indent_spaces : ℕ
indent_spaces = 2

pub record JsonWriter : Type 0 where
  pub chunks : List Text
  pub buffer : Text
  pub first : Bool
  pub pretty : Bool
  pub indent_level : ℕ
  pub after_key : Bool

abbrev pub initial : Bool → JsonWriter
initial pretty = record {
  chunks = [];
  buffer = [];
  first = true;
  pretty = pretty;
  indent_level = 0;
  after_key = false;
}

unfoldable pub flush : JsonWriter → JsonWriter
flush w =
    if ltb 0 (length w.buffer)
    then record w { chunks = w.chunks ++ w.buffer ∷ []; buffer = [] }
    else w

-- A text that does not fit into the buffer goes to the visitor by itself.
unfoldable pub write : Text → JsonWriter → JsonWriter
write s w =
    let flushed = flush w in
    if leb (length w.buffer + length s) writer_buffer_size
    then record w { buffer = w.buffer ++ s }
    else if ltb writer_buffer_size (length s)
    then record flushed { chunks = flushed.chunks ++ s ∷ [] }
    else record flushed { buffer = flushed.buffer ++ s }

unfoldable pub write_all : List Text → JsonWriter → JsonWriter
write_all [] w = w
write_all (s ∷ texts) w = write_all texts (write s w)

-- The loop of spaces is one `write` for each.
unfoldable pub write_indent : JsonWriter → JsonWriter
write_indent w =
    if w.pretty
    then write_all (replicate (w.indent_level * indent_spaces) (b' ' ∷ [])) (write (b'\n' ∷ []) w)
    else w

-- The comma before all but the first, in `beforeValue` and `appendKey`.
unfoldable pub write_comma : JsonWriter → JsonWriter
write_comma w = if w.first then w else write (b',' ∷ []) w

-- The rest of `beforeValue`, and the first lines of `writeRaw`.
unfoldable pub lay_out : JsonWriter → JsonWriter
lay_out w =
    let indented =
      if w.pretty && not w.after_key && ltb 0 w.indent_level then write_indent w else w in
    record indented { after_key = false }

unfoldable pub before_value : JsonWriter → JsonWriter
before_value w = lay_out (write_comma w)

abbrev pub after_value : JsonWriter → JsonWriter
after_value w = record w { first = false; after_key = false }

-- `startObject` and `startArray`
unfoldable pub start : ℕ → JsonWriter → JsonWriter
start opening w =
    let w' = write (opening ∷ []) (before_value w) in
    record w' {
      first = true;
      indent_level = if w'.pretty then w'.indent_level + 1 else w'.indent_level;
    }

-- `endObject` and `endArray`
unfoldable pub end_with : ℕ → JsonWriter → JsonWriter
end_with closing w =
    let w' =
      if w.pretty then write_indent (record w { indent_level = w.indent_level - 1 }) else w in
    after_value (flush (write (closing ∷ []) w'))

abbrev pub start_object : JsonWriter → JsonWriter
start_object w = start b'{' w

abbrev pub end_object : JsonWriter → JsonWriter
end_object w = end_with b'}' w

abbrev pub start_array : JsonWriter → JsonWriter
start_array w = start b'[' w

abbrev pub end_array : JsonWriter → JsonWriter
end_array w = end_with b']' w

unfoldable pub append_key : Text → JsonWriter → JsonWriter
append_key key w =
    let separated = write_comma w in
    let indented = if separated.pretty then write_indent separated else separated in
    let named = write (b'"' ∷ b':' ∷ []) (write key (write (b'"' ∷ []) indented)) in
    let spaced = if named.pretty then write (b' ' ∷ []) named else named in
    record spaced { first = true; after_key = true }

abbrev pub hex_digit : ℕ → ℕ
hex_digit n = if ltb n 10 then b'0' + n else b'a' + (n - 10)

-- What `writeEscapedJson` puts in place of a byte, or nothing.
abbrev pub escaped : ℕ → Text
escaped c =
    if c == b'"'
    then b'\\' ∷ b'"' ∷ []
    else if c == b'\\'
    then b'\\' ∷ b'\\' ∷ []
    else if c == 8
    then b'\\' ∷ b'b' ∷ []
    else if c == 12
    then b'\\' ∷ b'f' ∷ []
    else if c == b'\n'
    then b'\\' ∷ b'n' ∷ []
    else if c == b'\r'
    then b'\\' ∷ b'r' ∷ []
    else if c == b'\t'
    then b'\\' ∷ b't' ∷ []
    else if ltb c 0x20
    then b'\\' ∷ b'u' ∷ b'0' ∷ b'0' ∷ hex_digit (c / 16) ∷ hex_digit (c % 16) ∷ []
    else []

-- The calls of the visitor: the bytes that stay are collected, `start` being where they begin.
unfoldable pub escaped_pieces : Text → Text → List Text
escaped_pieces kept [] = if ltb 0 (length kept) then kept ∷ [] else []
escaped_pieces kept (c ∷ s) =
    let later = escaped_pieces (if length (escaped c) == 0 then kept ++ c ∷ [] else []) s in
    if length (escaped c) == 0
    then later
    else if ltb 0 (length kept)
    then kept ∷ escaped c ∷ later
    else escaped c ∷ later

unfoldable pub write_escaped : Text → JsonWriter → JsonWriter
write_escaped s w = write_all (escaped_pieces [] s) w

-- `writeValue` of a value whose text is given: null, a truth value or a number.
unfoldable pub write_plain : Text → JsonWriter → JsonWriter
write_plain text w = after_value (write text (before_value w))

abbrev pub null_text : Text
null_text = b'n' ∷ b'u' ∷ b'l' ∷ b'l' ∷ []

abbrev pub boolean_text : Bool → Text
boolean_text true = b't' ∷ b'r' ∷ b'u' ∷ b'e' ∷ []
boolean_text false = b'f' ∷ b'a' ∷ b'l' ∷ b's' ∷ b'e' ∷ []

unfoldable pub write_string : Text → JsonWriter → JsonWriter
write_string val w =
    after_value (write (b'"' ∷ []) (write_escaped val (write (b'"' ∷ []) (before_value w))))

-- `writeField` of a text, and of a value whose text is given.
unfoldable pub write_field : Text → Text → JsonWriter → JsonWriter
write_field key val w =
    after_value (write (b'"' ∷ []) (write_escaped val (write (b'"' ∷ []) (append_key key w))))

unfoldable pub write_plain_field : Text → Text → JsonWriter → JsonWriter
write_plain_field key text w = after_value (write text (append_key key w))

-- `writeRaw`
unfoldable pub write_raw : Text → JsonWriter → JsonWriter
write_raw s w = after_value (write s (lay_out w))

-- `appendHexFieldToWriter`, with the digits that wait for 64 of them.
unfoldable pub write_hex : Text → List ℕ → JsonWriter → JsonWriter
write_hex digits [] w = if ltb 0 (length digits) then write digits w else w
write_hex digits (b ∷ bytes) w =
    let more = digits ++ hex_digit (b / 16) ∷ hex_digit (b % 16) ∷ [] in
    let full = length more == 64 in
    write_hex (if full then [] else more) bytes (if full then write more w else w)

unfoldable pub write_hex_field : Text → List ℕ → JsonWriter → JsonWriter
write_hex_field key bytes w =
    after_value (write (b'"' ∷ []) (write_hex [] bytes (write (b'"' ∷ []) (append_key key w))))
