-- ===== src/Device.antt =====
-- src/ebus/models/device.hpp and device.cpp: a device and what it has told about itself. Each part is the
-- bytes of the last answer, empty before the first.
pub mod Pending
use ebus.Base.{
  Bool, List, Option, [], drop, false, get_or, if◌then◌else◌, leb, length, ltb, none, not, some,
  true, ℕ, ◌%◌, ◌&&◌, ◌+◌, ◌==◌, ◌^◌, ◌∷◌, ◌||◌,
}

pub record Device : Type 0 where
  pub slave : ℕ
  pub identified : Bool
  pub message_count : ℕ
  pub vec_070400 : List ℕ
  pub vec_b5090124 : List ℕ
  pub vec_b5090125 : List ℕ
  pub vec_b5090126 : List ℕ
  pub vec_b5090127 : List ℕ

abbrev pub no_device : Device
no_device = record {
  slave = 0;
  identified = false;
  message_count = 0;
  vec_070400 = [];
  vec_b5090124 = [];
  vec_b5090125 = [];
  vec_b5090126 = [];
  vec_b5090127 = [];
}

-- `ebus::matches` of include/ebus/utils.hpp: the bytes stand in the container from the index on.
abbrev pub starts_with : List ℕ → List ℕ → Bool
starts_with container [] = true
starts_with [] (b ∷ search) = false
starts_with (a ∷ container) (b ∷ search) = if a == b then starts_with container search else false

abbrev pub matches : List ℕ → List ℕ → ℕ → Bool
matches container search index = starts_with (drop index container) search

abbrev pub identification : List ℕ
identification = 0x07 ∷ 0x04 ∷ 0x00 ∷ []

-- The prefixes of the four commands that ask a Vaillant device for its parts.
abbrev pub command_prefix : ℕ → List ℕ
command_prefix i = 0xb5 ∷ 0x09 ∷ 0x01 ∷ (0x24 + i) ∷ []

abbrev pub create_scan_command : ℕ → List ℕ
create_scan_command slave = slave ∷ identification

-- The part that the telegram has asked for takes the answer.
unfoldable pub store : List ℕ → List ℕ → Device → Device
store master slave_view d =
    if matches master identification 2
    then record d { vec_070400 = slave_view }
    else if matches master (command_prefix 0) 2
    then record d { vec_b5090124 = slave_view }
    else if matches master (command_prefix 1) 2
    then record d { vec_b5090125 = slave_view }
    else if matches master (command_prefix 2) 2
    then record d { vec_b5090126 = slave_view }
    else if matches master (command_prefix 3) 2
    then record d { vec_b5090127 = slave_view }
    else d

unfoldable pub update : ℕ → List ℕ → List ℕ → Device → Device
unfolding store
update slave_addr master slave_view d =
    let seen = record d { slave = slave_addr; message_count = (d.message_count + 1) % 2 ^ 32 } in
    let stored = store master slave_view seen in
    if length slave_view == 0
    then seen
    else record stored { identified = not (length stored.vec_070400 == 0) || d.identified }

abbrev pub vendor_vaillant : ℕ
vendor_vaillant = 0xb5

abbrev pub is_vaillant : Device → Bool
is_vaillant d = ltb 1 (length d.vec_070400) && get_or d.vec_070400 1 0 == vendor_vaillant

abbrev pub is_vaillant_valid : Device → Bool
is_vaillant_valid d =
    ltb 0 (length d.vec_b5090124)
    && (ltb 0 (length d.vec_b5090125)
        && (ltb 0 (length d.vec_b5090126) && ltb 0 (length d.vec_b5090127)))

abbrev pub storage_fields : Device → List (List ℕ)
storage_fields d = d.vec_b5090124 ∷ d.vec_b5090125 ∷ d.vec_b5090126 ∷ d.vec_b5090127 ∷ []

-- The first empty field, the fields being counted from i on.
abbrev pub first_empty : ℕ → List (List ℕ) → Option ℕ
first_empty i [] = none
first_empty i (field ∷ fields) = if length field == 0 then some i else first_empty (i + 1) fields

abbrev pub vendor_command : ℕ → Device → List ℕ
vendor_command i d = d.slave ∷ command_prefix i

-- The cursor behind the call, and the command.
unfoldable pub get_next_pending_vendor_command : ℕ → Device → ℕ × Option (List ℕ)
get_next_pending_vendor_command cursor d =
    if not (is_vaillant d)
    then (4, none)
    else elim (first_empty cursor (drop cursor (storage_fields d))) [
      | none ↦ (4, none)
      | some i ↦ (i + 1, some (vendor_command i d))
    ]

unfoldable pub get_first_pending_vendor_command : Device → Option (List ℕ)
get_first_pending_vendor_command d =
    if not (is_vaillant d) then none else elim (first_empty 0 (storage_fields d)) [
      | none ↦ none
      | some i ↦ some (vendor_command i d)
    ]

abbrev pub get_vendor_data : ℕ → Device → List ℕ
get_vendor_data sub d =
    if sub == 0x24
    then d.vec_b5090124
    else if sub == 0x25
    then d.vec_b5090125
    else if sub == 0x26
    then d.vec_b5090126
    else if sub == 0x27
    then d.vec_b5090127
    else []
