-- ===== src/Json/Tree.antt =====
-- include/ebus/detail/json_writer.hpp: the trees that are written by the calls of the writer, one call of
-- `writeValue`, `startObject`, `appendKey` and so on for each part, and the text of a tree.
pub mod Print
pub mod Check
pub mod Parts
pub mod RoundTrip
use ebus.Base.{
  Bool, List, [], false, if◌then◌else◌, leb, replicate, true, ℕ, ◌&&◌, ◌*◌, ◌++◌, ◌+◌, ◌∷◌,
}
use ebus.Json.{Text}
use ebus.Json.Writer.{
  JsonWriter, append_key, end_array, end_object, start_array, start_object, write_plain,
  write_string,
}
use ebus.Json.Writer.Calls.{escape, quoted, spaces}

mutual
  -- A scalar is null, a truth value or a number, by its text.
  pub data Json : Type 0 where
    scalar : Text → Json
    string : Text → Json
    array : Items → Json
    object : Fields → Json

  pub data Items : Type 0 where
    no_items : Items
    item : Json → Items → Items

  pub data Fields : Type 0 where
    no_fields : Fields
    field : Text → Json → Fields → Fields

unfoldable mutual
  pub emit : Json → JsonWriter → JsonWriter
  emit (scalar t) w = write_plain t w
  emit (string s) w = write_string s w
  emit (array items) w = end_array (emit_items items (start_array w))
  emit (object members) w = end_object (emit_fields members (start_object w))

  pub emit_items : Items → JsonWriter → JsonWriter
  emit_items no_items w = w
  emit_items (item v items) w = emit_items items (emit v w)

  pub emit_fields : Fields → JsonWriter → JsonWriter
  emit_fields no_fields w = w
  emit_fields (field key v members) w = emit_fields members (emit v (append_key key w))

-- The layout: what stands between two values, and the level inside a container.
abbrev pub gap : Bool → ℕ → Text
gap pretty level = if pretty then b'\n' ∷ spaces level else []

abbrev pub deeper : Bool → ℕ → ℕ
deeper pretty level = if pretty then level + 1 else level

abbrev pub separator : Bool → Text
separator first = if first then [] else b',' ∷ []

abbrev pub colon : Bool → Text
colon pretty = b':' ∷ (if pretty then b' ' ∷ [] else [])

unfoldable mutual
  pub body : Json → Bool → ℕ → Text
  body (scalar t) pretty level = t
  body (string s) pretty level = quoted (escape s)
  body (array items) pretty level =
      b'[' ∷ items_text items true pretty (deeper pretty level) ++ (gap pretty level ++ b']' ∷ [])
  body (object members) pretty level =
      b'{' ∷ fields_text members true pretty (deeper pretty level)
      ++ (gap pretty level ++ b'}' ∷ [])

  pub items_text : Items → Bool → Bool → ℕ → Text
  items_text no_items first pretty level = []
  items_text (item v items) first pretty level =
      separator first
      ++ (gap pretty level ++ (body v pretty level ++ items_text items false pretty level))

  pub fields_text : Fields → Bool → Bool → ℕ → Text
  fields_text no_fields first pretty level = []
  fields_text (field key v members) first pretty level =
      separator first
      ++ (gap pretty level
          ++ (quoted key
              ++ (colon pretty ++ (body v pretty level ++ fields_text members false pretty level))))
