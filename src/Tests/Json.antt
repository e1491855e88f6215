-- ===== src/Tests/Json.antt =====
-- JSON on concrete texts, and its theorems at concrete trees.
use ebus.Base.{suc, ◌^◌, Bool, [], false, none, refl, some, true, ℕ, ◌∷◌, ◌≡◌, arith}
use ebus.Json.{Text}
use ebus.Json.Writer.{
  initial, null_text, flush, write, write_all, write_indent, write_comma, lay_out, before_value,
  start, end_with, append_key, escaped_pieces, write_escaped, write_plain, write_string,
}
use ebus.Json.Writer.Output.{output}
use ebus.Json.Tree.{
  Json, scalar, string, array, object, no_items, item, no_fields, field, emit, body,
}
use ebus.Json.Tree.Check.{IsWritable, null, number}
use ebus.Json.Tree.Print.{output-emit}
use ebus.Json.Tree.RoundTrip.{validate-emit}
use ebus.Json.Validate.{
  max_recursion_depth, validate, loop, step, value_step, key_step, comma_step, open_bracket,
  close_bracket, skip_literal, skip_string, skip_number,
}
use ebus.Json.Reader.{
  JsonReader, key, next, next_at, next_literal, next_number, next_string, wait_or, read_string,
  skip_numeric, skip_closing, stop_at, skip_to_closing, string,
}
use ebus.Json.Reader.Stream.{read_text, stream, feed}
use ebus.Json.Reader.Chunks.{skip_to_closing-feed}
use ebus.Json.Reader.Path.{find, find_key, find_turn, get, walk, enter, reset, skip_value}
use ebus.Json.Reader.Path.Termination.{find-total}

-- {"a":[1,"\"]"],"b":null}
abbrev items : Json
items = array (item (scalar (b'1' ∷ [])) (item (string (b'"' ∷ b']' ∷ [])) no_items))

abbrev sample : Json
sample = object (field (b'a' ∷ []) items (field (b'b' ∷ []) (scalar null_text) no_fields))

abbrev sample_text : Text
sample_text =
    b'{' ∷ b'"' ∷ b'a' ∷ b'"' ∷ b':' ∷ b'[' ∷ b'1' ∷ b',' ∷ b'"' ∷ b'\\' ∷ b'"' ∷ b']' ∷ b'"' ∷ b']'
    ∷ b',' ∷ b'"' ∷ b'b' ∷ b'"' ∷ b':' ∷ b'n' ∷ b'u' ∷ b'l' ∷ b'l' ∷ b'}' ∷ []

written : output (emit sample (initial false)) ≡ sample_text
unfolding emit write_plain write_string write_escaped escaped_pieces append_key start end_with
    before_value lay_out write_comma write_indent write_all write flush
written = refl

accepted : validate sample_text ≡ true
unfolding validate loop step value_step key_step comma_step open_bracket close_bracket skip_literal
    skip_string skip_number
accepted = refl

-- A comma before a bracket, an open string and two values are refused.
refused :
    (validate (b'[' ∷ b'1' ∷ b',' ∷ b']' ∷ []) ≡ false)
    × (validate (b'"' ∷ b'a' ∷ b'\\' ∷ b'"' ∷ []) ≡ false)
    × (validate (b'1' ∷ b' ' ∷ b'2' ∷ []) ≡ false)
unfolding validate loop step value_step key_step comma_step open_bracket close_bracket skip_literal
    skip_string skip_number
refused = (refl, refl, refl)

-- A number with a byte 0, and one with two points, are accepted.
lenient_number :
    (validate (b'1' ∷ 0 ∷ []) ≡ true) × (validate (b'1' ∷ b'.' ∷ b'2' ∷ b'.' ∷ b'3' ∷ []) ≡ true)
unfolding validate loop step value_step key_step comma_step open_bracket close_bracket skip_literal
    skip_string skip_number
lenient_number = (refl, refl)

-- {"a":[1],"b":"x"}: the path a.2 leaves the array and gives the key behind it.
past_the_end :
    (get (2 ^ 32) (b'a' ∷ b'.' ∷ b'2' ∷ []) (
      read_text (
        b'{' ∷ b'"' ∷ b'a' ∷ b'"' ∷ b':' ∷ b'[' ∷ b'1' ∷ b']' ∷ b',' ∷ b'"' ∷ b'b' ∷ b'"' ∷ b':'
        ∷ b'"' ∷ b'x' ∷ b'"' ∷ b'}' ∷ []))).1
    ≡ key
unfolding get walk enter reset find find_key find_turn next next_at next_literal next_number
    next_string wait_or read_string skip_numeric skip_closing stop_at skip_to_closing skip_value
past_the_end = refl

items-IsWritable : (depth : ℕ) → IsWritable (suc depth) items
unfolding IsWritable
items-IsWritable depth = (number b'1' [] refl refl, (tt, tt))

sample-IsWritable : IsWritable max_recursion_depth sample
unfolding IsWritable
sample-IsWritable = (refl, items-IsWritable 30, (refl, null, tt))

validate-emit_example : validate (output (emit sample (initial true))) ≡ true
validate-emit_example = validate-emit sample true sample-IsWritable

output-emit_example : output (emit sample (initial true)) ≡ body sample true 0
output-emit_example = output-emit sample true

find-total_example :
    (res : JsonReader × Bool) × (find (b'b' ∷ []) (read_text sample_text) ≡ some res)
find-total_example = find-total (b'b' ∷ []) (read_text sample_text)

-- A stream in the middle of [1,"\"]"], behind its first bracket.
abbrev cut : JsonReader
cut = record (stream none) { json = b'1' ∷ b',' ∷ b'"' ∷ b'\\' ∷ [] }

skip_to_closing-feed_example :
    skip_to_closing (feed (b'"' ∷ b']' ∷ b'"' ∷ b']' ∷ []) (skip_to_closing cut))
    ≡ skip_to_closing (feed (b'"' ∷ b']' ∷ b'"' ∷ b']' ∷ []) cut)
unfolding skip_to_closing stop_at skip_closing
skip_to_closing-feed_example =
    skip_to_closing-feed (b'"' ∷ b']' ∷ b'"' ∷ b']' ∷ []) cut (omega arith) refl refl refl refl
