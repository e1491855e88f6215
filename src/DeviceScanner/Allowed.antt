-- ===== src/DeviceScanner/Allowed.antt =====
-- Which devices `nextCommand` of src/ebus/app/device_scanner.cpp asks.
use ebus.Address.{is_slave, slave_of}
use ebus.Base.{
  Bool, Bool-cases, List, Option, [], arith, false, get_or, if◌then◌else◌, inl, inr, ltb, none, not,
  refl, some, subst, suc, sym, true, zero, ℕ, ◌+◌, ◌-◌, ◌==◌, ◌∙◌, ◌∷◌, ◌≡◌, ◌||◌,
}
use ebus.Device.{Device, create_scan_command, get_next_pending_vendor_command, no_device}
use ebus.DeviceManager.Inventory.{IsInventory}
use ebus.DeviceManager.{DeviceManager, get_next_pending_vendor_command_for_device, is_identified}
use ebus.DeviceScanner.Next.{
  deep_scan, expire, full_scan_from, is_barred, next_command, pass_by, pick, round, startup_scan,
  visit,
}
use ebus.DeviceScanner.{DeviceScanner}

-- The device a command goes to is neither on cooldown nor in quarantine.
abbrev pub IsAllowed : DeviceScanner → Option (List ℕ) → Type 0
IsAllowed s command = (cmd : List ℕ) → command ≡ some cmd → is_barred (get_or cmd 0 0) s ≡ false

get_next-target :
    (cursor : ℕ) (d : Device) (cmd : List ℕ)
    → (get_next_pending_vendor_command cursor d).1 ≡ some cmd
    → get_or cmd 0 0 ≡ d.slave
unfolding get_next_pending_vendor_command
get_next-target cursor d cmd e = ground arith

entry-target :
    (addr cursor : ℕ) (m : DeviceManager) (cmd : List ℕ) (entry : Option ℕ)
    → IsInventory m
    → m.address_map addr ≡ entry
    → (elim entry as (λ _. ℕ × Option (List ℕ)) [
      | none ↦ (4, none)
      | some idx ↦
          if ltb cursor 4
          then get_next_pending_vendor_command cursor (get_or m.device_pool idx no_device)
          else (4, none)
    ]).1
      ≡ some cmd
    → get_or cmd 0 0 ≡ addr
entry-target addr cursor m cmd none v f e = absurd (ground arith)
entry-target addr cursor m cmd (some idx) v f e =
    let d = get_or m.device_pool idx no_device in
    elim (Bool-cases (ltb cursor 4)) [
      | inl below ↦ get_next-target cursor d cmd (rw below at e) ∙ (v.placed addr idx f).1
      | inr behind ↦ absurd (ground arith)
    ]

for_device-target :
    (addr cursor : ℕ) (m : DeviceManager) (cmd : List ℕ)
    → IsInventory m
    → (get_next_pending_vendor_command_for_device addr cursor m).1 ≡ some cmd
    → get_or cmd 0 0 ≡ addr
unfolding get_next_pending_vendor_command_for_device
for_device-target addr cursor m cmd v e =
    entry-target addr cursor m cmd (m.address_map addr) v refl e

some-IsAllowed :
    (s : DeviceScanner) (addr : ℕ) (cmd : List ℕ)
    → get_or cmd 0 0 ≡ addr
    → is_barred addr s ≡ false
    → IsAllowed s (some cmd)
some-IsAllowed s addr cmd head free cmd' e =
    let same : cmd ≡ cmd' = ground arith in
    subst (λ c. is_barred (get_or c 0 0) s ≡ false) same
      (subst (λ a. is_barred a s ≡ false) (sym head) free)

none-IsAllowed : (s : DeviceScanner) → IsAllowed s none
none-IsAllowed s cmd e = absurd (ground arith)

-- A device that is identified is asked for its next part.
known-IsAllowed :
    (m : DeviceManager) (now addr cursor : ℕ) (p : DeviceScanner)
    (rest : DeviceScanner × Option (List ℕ)) (command : Option (List ℕ))
    → ((cmd : List ℕ) → command ≡ some cmd → get_or cmd 0 0 ≡ addr)
    → is_barred addr p ≡ false
    → IsAllowed rest.0 rest.1
    → let r : DeviceScanner × Option (List ℕ) = elim command [
      | none ↦ rest
      | some cmd ↦ (
        record p { last_scan_attempt = some now; current_deep_scan_vendor_cursor = cursor },
        some cmd,
      )
    ] in
      IsAllowed r.0 r.1
known-IsAllowed m now addr cursor p rest none target free a = a
known-IsAllowed m now addr cursor p rest (some cmd) target free a =
    some-IsAllowed
      (record p { last_scan_attempt = some now; current_deep_scan_vendor_cursor = cursor }) addr cmd
      (target cmd refl) free

visit-IsAllowed :
    (m : DeviceManager) (now addr : ℕ) (p : DeviceScanner) (rest : DeviceScanner × Option (List ℕ))
    → IsInventory m
    → IsAllowed rest.0 rest.1
    → IsAllowed (visit m now addr p rest).0 (visit m now addr p rest).1
unfolding visit
visit-IsAllowed m now addr p rest v a = elim (Bool-cases (is_barred addr p)) [
  | inl barred ↦ simp barred a
  | inr free ↦ elim (Bool-cases (is_identified addr m)) [
    | inr unknown ↦
        simp (free, unknown)
          (some-IsAllowed
            (record p { current_deep_scan_address = none; last_scan_attempt = some now }) addr
            (create_scan_command addr) refl free)
    | inl known ↦
        let (cursor, command) =
          get_next_pending_vendor_command_for_device addr p.current_deep_scan_vendor_cursor m in
        simp (free, known)
          (known-IsAllowed m now addr cursor p rest command
            (λ cmd. for_device-target addr p.current_deep_scan_vendor_cursor m cmd v) free a)
  ]
]

picked-IsAllowed :
    (m : DeviceManager) (now : ℕ) (p : DeviceScanner) (later : ℕ → DeviceScanner × Option (List ℕ))
    (current : Option ℕ)
    → IsInventory m
    → ((addr : ℕ) → IsAllowed (later addr).0 (later addr).1)
    → let r : DeviceScanner × Option (List ℕ) = elim current [
      | none ↦ (p, none)
      | some addr ↦ visit m now addr p (later addr)
    ] in
      IsAllowed r.0 r.1
picked-IsAllowed m now p later none v a = none-IsAllowed p
picked-IsAllowed m now p later (some addr) v a =
    visit-IsAllowed m now addr p (later addr) v (a addr)

deep_scan-IsAllowed :
    (m : DeviceManager) (now fuel : ℕ) (s : DeviceScanner)
    → IsInventory m
    → IsAllowed (deep_scan m now fuel s).0 (deep_scan m now fuel s).1
unfolding deep_scan
deep_scan-IsAllowed m now zero s v = none-IsAllowed s
deep_scan-IsAllowed m now (suc fuel) s v =
    let p = pick s in
    picked-IsAllowed m now p (λ addr. deep_scan m now fuel (pass_by m addr p))
      p.current_deep_scan_address v (λ addr. deep_scan-IsAllowed m now fuel (pass_by m addr p) v)

full_scan_from-IsAllowed :
    (m : DeviceManager) (now n : ℕ) (s : DeviceScanner)
    → IsAllowed (full_scan_from m now n s).0 (full_scan_from m now n s).1
unfolding full_scan_from
full_scan_from-IsAllowed m now zero s = none-IsAllowed (record s { full_scan = false })
full_scan_from-IsAllowed m now (suc n) s =
    let addr = s.full_scan_address in
    let s' = record s { full_scan_address = addr + 1 } in
    let later = full_scan_from-IsAllowed m now n s' in
    elim (Bool-cases (not (is_slave addr) || addr == slave_of s.own_address)) [
      | inl skipped ↦ simp skipped later
      | inr slave ↦ elim (Bool-cases (is_barred addr s)) [
        | inl barred ↦ simp (slave, barred) later
        | inr free ↦ elim (Bool-cases (is_identified addr m)) [
          | inl known ↦ simp (slave, free, known) later
          | inr unknown ↦
              simp (slave, free, unknown)
                (some-IsAllowed (record s' { last_scan_attempt = some now }) addr
                  (create_scan_command addr) refl free)
        ]
      ]
    ]

ended-IsAllowed :
    (deep full started : DeviceScanner) (command probe : Option (List ℕ)) (busy again : Bool)
    → IsAllowed deep command
    → IsAllowed full probe
    → let r : DeviceScanner × Option (List ℕ) × Bool = elim command [
      | some cmd ↦ (deep, some cmd, false)
      | none ↦
          if busy
          then (deep, none, false)
          else elim probe [ some cmd ↦ (full, some cmd, false) | none ↦ (started, none, again) ]
    ] in
      IsAllowed r.0 r.1
ended-IsAllowed deep full started (some cmd) probe busy again a b = a
ended-IsAllowed deep full started none probe true again a b = a
ended-IsAllowed deep full started none (some cmd) false again a b = b
ended-IsAllowed deep full started none none false again a b = none-IsAllowed started

either-IsAllowed :
    (first : Bool) (x y : DeviceScanner × Option (List ℕ))
    → IsAllowed x.0 x.1
    → IsAllowed y.0 y.1
    → IsAllowed (if first then x else y).0 (if first then x else y).1
either-IsAllowed true x y a b = a
either-IsAllowed false x y a b = b

round-IsAllowed :
    (m : DeviceManager) (now : ℕ) (busy : Bool) (s : DeviceScanner)
    → IsInventory m
    → IsAllowed (round m now busy s).0 (round m now busy s).1
unfolding round
round-IsAllowed m now busy s v =
    let (deep, command) = deep_scan m now 258 (expire now s) in
    let (full, probe) : DeviceScanner × Option (List ℕ) =
      if deep.full_scan
      then full_scan_from m now (256 - deep.full_scan_address) deep
      else (deep, none) in
    let (started, again) = startup_scan m now full in
    let scanned = full_scan_from m now (256 - deep.full_scan_address) deep in
    let probed =
      either-IsAllowed deep.full_scan scanned (deep, none)
        (full_scan_from-IsAllowed m now (256 - deep.full_scan_address) deep)
        (none-IsAllowed deep) in
    ended-IsAllowed deep full started command probe busy again
      (deep_scan-IsAllowed m now 258 (expire now s) v) probed

-- On devices in order, the device that the next command goes to is neither on cooldown nor in quarantine.
pub next_command-IsAllowed :
    (m : DeviceManager) (readings : List (ℕ × Bool)) (s : DeviceScanner)
    → IsInventory m
    → IsAllowed (next_command m readings s).0 (next_command m readings s).1
unfolding next_command
next_command-IsAllowed m [] s v = none-IsAllowed s
next_command-IsAllowed m ((now, busy) ∷ readings) s v =
    let r = round m now busy s in
    elim (Bool-cases r.2) [
      | inl again ↦ simp again (next_command-IsAllowed m readings r.0 v)
      | inr done ↦ simp done (round-IsAllowed m now busy s v)
    ]
