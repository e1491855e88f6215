-- ===== src/Json/Reader/Stream.antt =====
-- src/ebus/utils/json_reader.cpp and include/ebus/detail/json_reader.hpp: the readers and their input. The
-- position in the buffer where the text begins, `buffer_pos_`, is never moved from 0.
use ebus.Base.{
  Option, [], drop, false, if◌then◌else◌, length, leb, ltb, none, some, true, ℕ, ◌&&◌, ◌++◌, ◌-◌,
}
use ebus.Json.{Text, skip_whitespace}
use ebus.Json.Reader.{JsonReader, at, behind}

-- The constructors: on a text, and for a stream with a buffer of its own or a fixed one.
abbrev pub stream : Option ℕ → JsonReader
stream capacity = record {
  json = [];
  pos = 0;
  value = [];
  capacity = capacity;
  ended = false;
  needs_more = false;
  streaming = true;
  rawvalue_start = 0;
  rawvalue_in_progress = false;
  skip_in_string = false;
  skip_depth = 1;
}

abbrev pub read_text : Text → JsonReader
read_text json =
    let r = record (stream none) { json = json; ended = true; streaming = false } in
    at (skip_whitespace json) r

abbrev pub remaining : JsonReader → Text
remaining r = behind r

-- The text before the position is given up, but for a raw value that is being read.
unfoldable pub compact : JsonReader → JsonReader
compact r =
    let discard =
      if r.rawvalue_in_progress && ltb r.rawvalue_start r.pos then r.rawvalue_start else r.pos in
    record r {
      json = drop discard r.json;
      pos = r.pos - discard;
      rawvalue_start =
          if r.rawvalue_in_progress then r.rawvalue_start - discard else r.rawvalue_start;
    }

abbrev pub append_chunk : Text → JsonReader → JsonReader
append_chunk chunk r = record r { json = r.json ++ chunk; needs_more = false }

-- The buffer of its own has room, and the fixed one may have.
unfoldable pub feed_into : Option ℕ → Text → JsonReader → JsonReader
feed_into none chunk r = append_chunk chunk r
feed_into (some size) chunk r =
    let r' = compact r in
    if leb (length chunk) (size - length r.json)
    then append_chunk chunk r
    else if leb (length chunk) (size - length r'.json)
    then append_chunk chunk r'
    else record r' { needs_more = true }

unfoldable pub feed : Text → JsonReader → JsonReader
feed chunk r = if r.streaming then feed_into r.capacity chunk r else r

unfoldable pub end_of_input : JsonReader → JsonReader
end_of_input r = record r { ended = true; needs_more = r.rawvalue_in_progress }
