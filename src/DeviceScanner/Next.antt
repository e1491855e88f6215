-- ===== src/DeviceScanner/Next.antt =====
-- `nextCommand` of src/ebus/app/device_scanner.cpp.
use ebus.Address.{is_slave, slave_of}
use ebus.Base.{
  Bool, List, Option, [], false, if◌then◌else◌, leb, ltb, none, not, some, suc, true, zero, ℕ, ◌%◌,
  ◌&&◌, ◌+◌, ◌-◌, ◌==◌, ◌^◌, ◌∷◌, ◌||◌,
}
use ebus.Device.{create_scan_command}
use ebus.DeviceManager.{
  Bits, DeviceManager, get_next_pending_vendor_command_for_device, is_identified, reset,
}
use ebus.DeviceScanner.{DeviceScanner, no_bits, scan_observed_devices}

-- `now - last > duration`
abbrev pub has_passed : ℕ → ℕ → Option ℕ → Bool
has_passed duration now none = false
has_passed duration now (some last) = ltb (last + duration) now

-- `any()` and the search for the first bit, from the index on.
unfoldable pub first_set : ℕ → ℕ → Bits → Option ℕ
first_set zero i bits = none
first_set (suc n) i bits = let later = first_set n (i + 1) bits in if bits i then some i else later

unfoldable pub any : Bits → Bool
unfolding first_set
any bits = elim (first_set 256 0 bits) [ none ↦ false | some i ↦ true ]

-- The resets at the beginning of a round.
unfoldable pub expire : ℕ → DeviceScanner → DeviceScanner
unfolding any
expire now s =
    let s' =
      if any s.failed_scans && has_passed s.scan_cooldown_duration now s.last_failure_reset_time
      then record s { failed_scans = no_bits; last_failure_reset_time = some now }
      else s in
    if has_passed 1800 now s'.last_scan_attempt
    then record s' {
      failed_scans = no_bits;
      quarantined_scans = no_bits;
      scan_attempt_counters = λ a. 0;
      failure_resets = (s'.failure_resets + 1) % 2 ^ 32;
    }
    else s'

abbrev pub is_barred : ℕ → DeviceScanner → Bool
is_barred addr s = s.failed_scans addr || s.quarantined_scans addr

-- The address under way, or the first one that is pending.
unfoldable pub pick : DeviceScanner → DeviceScanner
unfolding first_set
pick s = elim s.current_deep_scan_address [
  | some addr ↦ s
  | none ↦ elim (first_set 256 0 s.pending_deep_scans) [
    | none ↦ s
    | some i ↦ record s {
      current_deep_scan_address = some i;
      current_deep_scan_vendor_cursor = 0;
      pending_deep_scans = reset i s.pending_deep_scans;
    }
  ]
]

-- What a round of the loop of the deep scans leaves to the next one, when it has no command.
unfoldable pub pass_by : DeviceManager → ℕ → DeviceScanner → DeviceScanner
pass_by m addr p =
    let (cursor, command) =
      get_next_pending_vendor_command_for_device addr p.current_deep_scan_vendor_cursor m in
    let next = record p { current_deep_scan_address = none } in
    if is_barred addr p || not (is_identified addr m)
    then next
    else record next { current_deep_scan_vendor_cursor = cursor }

-- A round of that loop at an address, with what the later rounds come to.
unfoldable pub visit :
    DeviceManager
    → ℕ
    → ℕ
    → DeviceScanner
    → DeviceScanner × Option (List ℕ)
    → DeviceScanner × Option (List ℕ)
visit m now addr p rest =
    let (cursor, command) =
      get_next_pending_vendor_command_for_device addr p.current_deep_scan_vendor_cursor m in
    if is_barred addr p
    then rest
    else if not (is_identified addr m)
    then (
      record p { current_deep_scan_address = none; last_scan_attempt = some now },
      some (create_scan_command addr),
    )
    else elim command [
      | none ↦ rest
      | some cmd ↦ (
        record p { last_scan_attempt = some now; current_deep_scan_vendor_cursor = cursor },
        some cmd,
      )
    ]

-- Each round of the loop but the last takes an address that is under way or pending, so that 258 rounds are
-- enough.
unfoldable pub deep_scan : DeviceManager → ℕ → ℕ → DeviceScanner → DeviceScanner × Option (List ℕ)
unfolding pick pass_by visit
deep_scan m now zero s = (s, none)
deep_scan m now (suc fuel) s =
    let p = pick s in
    elim p.current_deep_scan_address [
      | none ↦ (p, none)
      | some addr ↦ visit m now addr p (deep_scan m now fuel (pass_by m addr p))
    ]

-- The loop of the full scan, over so many addresses.
unfoldable pub full_scan_from :
    DeviceManager → ℕ → ℕ → DeviceScanner → DeviceScanner × Option (List ℕ)
full_scan_from m now zero s = (record s { full_scan = false }, none)
full_scan_from m now (suc n) s =
    let addr = s.full_scan_address in
    let s' = record s { full_scan_address = addr + 1 } in
    let later = full_scan_from m now n s' in
    if not (is_slave addr) || addr == slave_of s.own_address
    then later
    else if is_barred addr s
    then later
    else if not (is_identified addr m)
    then (record s' { last_scan_attempt = some now }, some (create_scan_command addr))
    else later

-- The pass over the observed devices; the result tells whether the loop goes on.
unfoldable pub startup_scan : DeviceManager → ℕ → DeviceScanner → DeviceScanner × Bool
startup_scan m now s =
    let (s', added) = scan_observed_devices m s in
    if not s.scan_on_startup || ltb now s.next_startup_scan_time
    then (s, false)
    else if leb s.max_startup_scans s.startup_scan_count
    then (record s { scan_on_startup = false }, false)
    else (
      record s' {
        startup_scan_count = (s'.startup_scan_count + 1) % 2 ^ 8;
        next_startup_scan_time = now + s'.startup_scan_interval;
      },
      added,
    )

-- A round of the outer loop: the command, or whether there is another round.
unfoldable pub round :
    DeviceManager → ℕ → Bool → DeviceScanner → DeviceScanner × Option (List ℕ) × Bool
unfolding expire deep_scan full_scan_from startup_scan
round m now busy s =
    let (deep, command) = deep_scan m now 258 (expire now s) in
    let (full, probe) =
      if deep.full_scan
      then full_scan_from m now (256 - deep.full_scan_address) deep
      else (deep, none) in
    let (started, again) = startup_scan m now full in
    elim command [
      | some cmd ↦ (deep, some cmd, false)
      | none ↦
          if busy
          then (deep, none, false)
          else elim probe [ some cmd ↦ (full, some cmd, false) | none ↦ (started, none, again) ]
    ]

-- `nextCommand`: each round has a reading of the clock and of the predicate. The Boolean tells whether the
-- loop has ended within the readings.
unfoldable pub next_command :
    DeviceManager → List (ℕ × Bool) → DeviceScanner → DeviceScanner × Option (List ℕ) × Bool
unfolding round
next_command m [] s = (s, none, false)
next_command m ((now, busy) ∷ readings) s =
    let (s', command, again) = round m now busy s in
    let later = next_command m readings s' in if again then later else (s', command, true)
