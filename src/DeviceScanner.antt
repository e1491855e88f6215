-- ===== src/DeviceScanner.antt =====
-- src/ebus/app/device_scanner.hpp and device_scanner.cpp: which device is asked next. A time point is a
-- number of seconds; none stands for the least one, to which the difference of a time point does not fit
-- into 64 bits and is taken to wrap around to a negative number. None is the address 256 of the source.
-- The startup members that only the status reports are left out, and the device manager is there.
pub mod Next
pub mod Allowed
pub mod Ends
use ebus.Address.{is_slave, slave_of}
use ebus.Base.{
  Bool, List, Option, [], false, if◌then◌else◌, leb, ltb, none, not, some, suc, true, zero, ℕ, ◌%◌,
  ◌&&◌, ◌+◌, ◌-◌, ◌==◌, ◌^◌, ◌∷◌, ◌||◌,
}
use ebus.DeviceManager.{Bits, DeviceManager, get_observed_slaves, needs_deep_scan, put, reset}

pub record DeviceScanner : Type 0 where
  pub own_address : ℕ
  pub pending_deep_scans : Bits
  pub failed_scans : Bits
  pub quarantined_scans : Bits
  pub last_failure_reset_time : Option ℕ
  pub scan_cooldown_duration : ℕ
  pub initial_scan_delay : ℕ
  pub startup_scan_interval : ℕ
  pub next_startup_scan_time : ℕ
  pub full_scan : Bool
  pub full_scan_address : ℕ
  pub scan_on_startup : Bool
  pub startup_scan_count : ℕ
  pub max_startup_scans : ℕ
  pub current_deep_scan_address : Option ℕ
  pub current_deep_scan_vendor_cursor : ℕ
  pub scan_attempt_counters : ℕ → ℕ
  pub failure_resets : ℕ
  pub last_scan_attempt : Option ℕ

abbrev pub no_bits : Bits
no_bits a = false

abbrev pub initial : ℕ → DeviceScanner
initial address = record {
  own_address = address;
  pending_deep_scans = no_bits;
  failed_scans = no_bits;
  quarantined_scans = no_bits;
  last_failure_reset_time = none;
  scan_cooldown_duration = 60;
  initial_scan_delay = 10;
  startup_scan_interval = 60;
  next_startup_scan_time = 0;
  full_scan = false;
  full_scan_address = 0;
  scan_on_startup = false;
  startup_scan_count = 0;
  max_startup_scans = 5;
  current_deep_scan_address = none;
  current_deep_scan_vendor_cursor = 0;
  scan_attempt_counters = λ a. 0;
  failure_resets = 0;
  last_scan_attempt = none;
}

unfoldable pub stop : DeviceScanner → DeviceScanner
stop s = record s {
  full_scan = false;
  pending_deep_scans = no_bits;
  failed_scans = no_bits;
  quarantined_scans = no_bits;
  last_failure_reset_time = none;
  scan_attempt_counters = λ a. 0;
  current_deep_scan_address = none;
}

unfoldable pub set_own_address : ℕ → DeviceScanner → DeviceScanner
set_own_address address s = record s { own_address = address }

unfoldable pub set_scan_on_startup : ℕ → Bool → DeviceScanner → DeviceScanner
set_scan_on_startup now enable s =
    if enable
    then record s {
      scan_on_startup = true;
      startup_scan_count = 0;
      next_startup_scan_time = now + s.initial_scan_delay;
    }
    else record s { scan_on_startup = false }

unfoldable pub set_max_startup_scans : ℕ → DeviceScanner → DeviceScanner
set_max_startup_scans scans s = record s { max_startup_scans = scans }

unfoldable pub set_initial_scan_delay : ℕ → DeviceScanner → DeviceScanner
set_initial_scan_delay delay_s s = record s { initial_scan_delay = delay_s }

unfoldable pub set_startup_scan_interval : ℕ → DeviceScanner → DeviceScanner
set_startup_scan_interval interval_s s = record s { startup_scan_interval = interval_s }

unfoldable pub init_full_scan : Bool → DeviceScanner → DeviceScanner
init_full_scan enable s =
    if enable
    then record s { full_scan = true; full_scan_address = 0 }
    else record s { full_scan = false }

-- `scanAddressInternal`, and `scanAddress`
unfoldable pub scan_address : ℕ → DeviceScanner → DeviceScanner × Bool
scan_address addr s =
    if addr == slave_of s.own_address
    then (s, false)
    else if s.pending_deep_scans addr
    then (s, true)
    else (
      record s {
        pending_deep_scans = put addr s.pending_deep_scans;
        failed_scans = reset addr s.failed_scans;
        quarantined_scans = reset addr s.quarantined_scans;
      },
      true,
    )

-- The loop of `scanObservedDevices` from the address on, over so many addresses.
unfoldable pub scan_observed_from : ℕ → ℕ → Bits → DeviceScanner → DeviceScanner × Bool
unfolding scan_address
scan_observed_from zero addr observed s = (s, false)
scan_observed_from (suc n) addr observed s =
    let (s', added) = if observed addr then scan_address addr s else (s, false) in
    let (s'', later) = scan_observed_from n (addr + 1) observed s' in (s'', added || later)

unfoldable pub scan_observed_devices : DeviceManager → DeviceScanner → DeviceScanner × Bool
unfolding scan_observed_from
scan_observed_devices m s = scan_observed_from 256 0 (get_observed_slaves m) s

unfoldable pub scan_addresses : List ℕ → DeviceScanner → DeviceScanner × Bool
unfolding scan_address
scan_addresses [] s = (s, true)
scan_addresses (addr ∷ addresses) s =
    let (s', added) = scan_address addr s in
    let (s'', all_success) = scan_addresses addresses s' in (s'', added && all_success)

-- A counter of eight bits.
abbrev pub set_counter : ℕ → ℕ → DeviceScanner → DeviceScanner
set_counter addr n s = record s {
  scan_attempt_counters = λ a. if addr == a then n % 2 ^ 8 else s.scan_attempt_counters a;
}

abbrev pub quarantine : ℕ → DeviceScanner → DeviceScanner
quarantine addr s =
    set_counter addr 0 (record s { quarantined_scans = put addr s.quarantined_scans })

unfoldable pub on_scan_result : DeviceManager → ℕ → Bool → DeviceScanner → DeviceScanner
on_scan_result m addr success s =
    let attempts = (s.scan_attempt_counters addr + 1) % 2 ^ 8 in
    let failed = record s { failed_scans = put addr s.failed_scans } in
    let cleared = record s { failed_scans = reset addr s.failed_scans } in
    if not success
    then (if leb 10 attempts then quarantine addr failed else set_counter addr attempts failed)
    else if not (needs_deep_scan addr m)
    then set_counter addr 0 cleared
    else if ltb attempts 10
    then set_counter addr attempts
        (record cleared { pending_deep_scans = put addr s.pending_deep_scans })
    else quarantine addr cleared

abbrev pub is_full_scan : DeviceScanner → Bool
is_full_scan s = s.full_scan
