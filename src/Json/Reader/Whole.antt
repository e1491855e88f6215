-- ===== src/Json/Reader/Whole.antt =====
-- src/ebus/utils/json_reader.cpp: `rawValue` on the text of a tree.
use ebus.Base.{Option, Bool, drop, false, length, take, true, ℕ, ◌++◌, ◌-◌, ◌≡◌}
use ebus.Json.{Text, skip_whitespace}
use ebus.Json.Reader.{JsonReader}
use ebus.Json.Reader.Stream.{remaining}
use ebus.Json.Reader.Path.{skip_separator, raw_value}
use ebus.Json.Tree.{Json, scalar, string, array, object}

-- A reader at any place of its text, in no raw value yet: the fields that a raw value does not depend on are
-- arguments.
abbrev pub reader_at : Text → ℕ → Text → Option ℕ → Bool → Bool → Bool → ℕ → JsonReader
reader_at json pos value capacity ended needs_more streaming start = record {
  json = json;
  pos = pos;
  value = value;
  capacity = capacity;
  ended = ended;
  needs_more = needs_more;
  streaming = streaming;
  rawvalue_start = start;
  rawvalue_in_progress = false;
  skip_in_string = false;
  skip_depth = 1;
}

-- What stands behind the position once white space and a separator are skipped.
abbrev pub ahead : Text → ℕ → Text
ahead json pos = skip_separator (skip_whitespace (drop pos json))

-- `u` is the end of `s`.
abbrev IsEnd : Text → Text → Type 0
IsEnd u s = (p : Text) × (p ++ u ≡ s)

abbrev pub is_container : Json → Bool
is_container (scalar t) = false
is_container (string s) = false
is_container (array items) = true
is_container (object members) = true

-- `rawValue` at the bracket of a container whose walk ends at `u`.
module _ (json : Text) (pos : ℕ) (value : Text) (capacity : Option ℕ)
    (ended needs_more streaming : Bool) (start : ℕ) where
  abbrev pub result : JsonReader × Text
  result = raw_value (reader_at json pos value capacity ended needs_more streaming start)

  abbrev Yields : Text → Text → Type 0
  Yields s u =
      (result.1 ≡ take (length json - length u - (length json - length s)) s)
      × (remaining result.0 ≡ drop (length json - length u) json)
