-- ===== src/Device/Pending.antt =====
-- The commands that src/ebus/models/device.cpp asks for, and their answers.
use ebus.Base.{
  Bool-cases, List, Option, [], arith, if◌then◌else◌, inl, inr, length, none, refl, some, true, ℕ,
  ◌+◌, ◌<◌, ◌==◌, ◌∷◌, ◌≡◌, get_or, subst, ◌∙◌, zero, suc,
}
use ebus.Device.{
  Device, first_empty, get_first_pending_vendor_command, is_vaillant, store, storage_fields, update,
  vendor_command,
}

abbrev pub missing_in : List (List ℕ) → ℕ
missing_in [] = 0
missing_in (field ∷ fields) = (if length field == 0 then 1 else 0) + missing_in fields

-- The parts of a Vaillant device that are not there yet.
abbrev pub missing : Device → ℕ
missing d = missing_in (storage_fields d)

-- What an answer to the command for a part that is not there does.
abbrev Filled : ℕ → ℕ → ℕ → List ℕ → Device → Type 0
Filled i source b answer d =
    let d' = update d.slave (source ∷ vendor_command i d) (b ∷ answer) d in
    (missing d' + 1 ≡ missing d) × (is_vaillant d' ≡ is_vaillant d) × (d'.slave ≡ d.slave)

field : ℕ → Device → List ℕ
field i d = get_or (storage_fields d) i []

filled :
    (i source b : ℕ) (answer : List ℕ) (d : Device)
    → i < 4
    → length (get_or (storage_fields d) i []) ≡ 0
    → Filled i source b answer d
unfolding update store
filled zero source b answer d l e = (ground arith, ground arith, ground arith)
filled (suc zero) source b answer d l e = (ground arith, ground arith, ground arith)
filled (suc (suc zero)) source b answer d l e = (ground arith, ground arith, ground arith)
filled (suc (suc (suc zero))) source b answer d l e = (ground arith, ground arith, ground arith)
filled (suc (suc (suc (suc i)))) source b answer d l e = absurd (omega arith)

found :
    (d : Device) (j : ℕ)
    → first_empty 0 (storage_fields d) ≡ some j
    → (j < 4) × (length (get_or (storage_fields d) j []) ≡ 0)
found d zero e = (omega arith, ground arith)
found d (suc zero) e = (omega arith, ground arith)
found d (suc (suc zero)) e = (omega arith, ground arith)
found d (suc (suc (suc zero))) e = (omega arith, ground arith)
found d (suc (suc (suc (suc j)))) e = absurd (ground arith)

-- The device lacks one part less, and is still known as one of the vendor.
abbrev pub Answered : Device → Device → Type 0
Answered d d' = (missing d' + 1 ≡ missing d) × (is_vaillant d' ≡ true) × (d'.slave ≡ d.slave)

answered :
    (source b : ℕ) (answer : List ℕ) (d : Device) (command : List ℕ) (o : Option ℕ)
    → is_vaillant d ≡ true
    → first_empty 0 (storage_fields d) ≡ o
    → (elim o as (λ _. Option (List ℕ)) [ none ↦ none | some i ↦ some (vendor_command i d) ])
      ≡ some command
    → Answered d (update d.slave (source ∷ command) (b ∷ answer) d)
answered source b answer d command none v o e = absurd (ground arith)
answered source b answer d command (some i) v o e =
    let (below, lacks) = found d i o in
    let (less, same, slave) = filled i source b answer d below lacks in
    let is_it : vendor_command i d ≡ command = ground arith in
    subst (λ c. Answered d (update d.slave (source ∷ c) (b ∷ answer) d)) is_it
      (less, same ∙ v, slave)

-- A device of the vendor for which a command is pending lacks one part less once that command is answered
-- by at least one byte; it keeps its address and is still a device of the vendor.
pub get_first_pending-update :
    (source : ℕ) (command : List ℕ) (b : ℕ) (answer : List ℕ) (d : Device)
    → get_first_pending_vendor_command d ≡ some command
    → Answered d (update d.slave (source ∷ command) (b ∷ answer) d)
unfolding get_first_pending_vendor_command
get_first_pending-update source command b answer d e = elim (Bool-cases (is_vaillant d)) [
  | inl v ↦
      answered source b answer d command (first_empty 0 (storage_fields d)) v refl (simp v at e)
  | inr v ↦ absurd (ground arith)
]
