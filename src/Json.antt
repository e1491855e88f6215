-- ===== src/Json.antt =====
-- include/ebus/detail/json_writer.hpp and json_reader.hpp, src/ebus/utils/json_writer.cpp and json_reader.cpp:
-- JSON text. A text is the list of its bytes.
pub mod Writer
pub mod Validate
pub mod Tree
pub mod Reader
use ebus.Base.{Bool, List, [], false, if◌then◌else◌, leb, true, ℕ, ◌&&◌, ◌==◌, ◌∷◌, ◌||◌}

abbrev pub Text : Type 0
Text = List ℕ

-- " \t\n\r"
abbrev pub is_whitespace : ℕ → Bool
is_whitespace c = c == b' ' || (c == b'\t' || (c == b'\n' || c == b'\r'))

abbrev pub skip_whitespace : Text → Text
skip_whitespace [] = []
skip_whitespace (c ∷ text) =
    let rest = skip_whitespace text in if is_whitespace c then rest else c ∷ text

abbrev pub is_digit : ℕ → Bool
is_digit c = leb b'0' c && leb c b'9'
