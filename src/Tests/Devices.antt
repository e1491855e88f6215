-- ===== src/Tests/Devices.antt =====
-- src/ebus/models/device.cpp, src/ebus/app/device_manager.cpp and device_scanner.cpp on a concrete device.
use ebus.Address.{slave_of}
use ebus.Base.{List, [], arith, false, refl, some, true, ℕ, ◌+◌, ◌∷◌, ◌≡◌}
use ebus.Device.{Device, get_first_pending_vendor_command, no_device}
use ebus.DeviceManager
use ebus.DeviceManager.Inventory.{IsInventory, update-IsInventory}
use ebus.DeviceManager.{DeviceManager}
use ebus.DeviceScanner.Allowed.{IsAllowed, next_command-IsAllowed}
use ebus.DeviceScanner.Ends.{Ended, deep_scan_ends}
use ebus.DeviceScanner.Next.{deep_scan, next_command}
use ebus.DeviceScanner.{DeviceScanner, scan_address}
use ebus.DeviceScanner

-- A device of Vaillant at the address 0x08 that has told nothing but its identification.
abbrev boiler : Device
boiler = record no_device { slave = 0x08; identified = true; vec_070400 = 0x0a ∷ 0xb5 ∷ 0x42 ∷ [] }

first_command :
    get_first_pending_vendor_command boiler ≡ some (0x08 ∷ 0xb5 ∷ 0x09 ∷ 0x01 ∷ 0x24 ∷ [])
unfolding get_first_pending_vendor_command
first_command = refl

empty-IsInventory : IsInventory (DeviceManager.initial true)
empty-IsInventory = record {
  placed = λ addr idx e. absurd (ground arith);
  fits = omega arith;
  marked = λ addr. refl;
}

abbrev telegram : List ℕ
telegram = 0xff ∷ 0x08 ∷ 0x07 ∷ 0x04 ∷ 0x00 ∷ []

abbrev answer : List ℕ
answer = 0x0a ∷ 0xb5 ∷ 0x42 ∷ []

abbrev seen : DeviceManager
seen = DeviceManager.update telegram answer (DeviceManager.initial true)

update-IsInventory_example :
    IsInventory (DeviceManager.update telegram answer (DeviceManager.initial true))
update-IsInventory_example =
    update-IsInventory telegram answer (DeviceManager.initial true) empty-IsInventory

-- The device is to be scanned.
abbrev asked : DeviceScanner
asked = (scan_address 0x08 (DeviceScanner.initial 0xff)).0

next_command-IsAllowed_example :
    IsAllowed
      (next_command (DeviceManager.initial true) ((100, false) ∷ []) asked).0
      (next_command (DeviceManager.initial true) ((100, false) ∷ []) asked).1
next_command-IsAllowed_example =
    next_command-IsAllowed (DeviceManager.initial true) ((100, false) ∷ []) asked empty-IsInventory

next_command_test :
    (next_command (DeviceManager.initial true) ((100, false) ∷ []) asked).1
    ≡ some (0x08 ∷ 0x07 ∷ 0x04 ∷ 0x00 ∷ [])
unfolding next_command scan_address slave_of
next_command_test = refl

deep_scan_ends_example :
    Ended (deep_scan (DeviceManager.initial true) 100 258 asked)
    × (deep_scan (DeviceManager.initial true) 100 (258 + 7) asked
        ≡ deep_scan (DeviceManager.initial true) 100 258 asked)
deep_scan_ends_example = deep_scan_ends (DeviceManager.initial true) 100 7 asked
