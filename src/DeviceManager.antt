-- ===== src/DeviceManager.antt =====
-- src/ebus/app/device_manager.hpp and device_manager.cpp: the devices seen on the bus. A bit set is a test,
-- the used part of the pool a list, and an entry -1 of the address map is none. With no monitor the first
-- callback of `update` does not run, and no counter is kept.
pub mod Inventory
use ebus.Address.{is_master, is_slave, master_of, slave_of}
use ebus.Base.{
  Bool, List, Option, [], false, get_or, if◌then◌else◌, leb, length, ltb, none, not, set, some, suc,
  true, zero, ℕ, ◌%◌, ◌&&◌, ◌++◌, ◌+◌, ◌-◌, ◌==◌, ◌^◌, ◌∷◌, ◌||◌,
}
use ebus.Device
use ebus.Device.{
  Device, get_first_pending_vendor_command, get_next_pending_vendor_command, no_device,
}

abbrev pub Bits : Type 0
Bits = ℕ → Bool

abbrev pub put : ℕ → Bits → Bits
put i bits j = if i == j then true else bits j

abbrev pub reset : ℕ → Bits → Bits
reset i bits j = if i == j then false else bits j

abbrev pub max_devices : ℕ
max_devices = 16

pub record DeviceManager : Type 0 where
  pub own_address : ℕ
  pub monitor : Bool
  pub unknown_devices : ℕ
  pub known_devices : ℕ
  pub device_pool : List Device
  pub address_map : ℕ → Option ℕ
  pub identified_devices : Bits
  pub masters : Bits
  pub slaves : Bits

abbrev pub initial : Bool → DeviceManager
initial monitor = record {
  own_address = 0xff;
  monitor = monitor;
  unknown_devices = 0;
  known_devices = 0;
  device_pool = [];
  address_map = λ a. none;
  identified_devices = λ a. false;
  masters = λ a. false;
  slaves = λ a. false;
}

unfoldable pub set_own_address : ℕ → DeviceManager → DeviceManager
set_own_address address m = record m { own_address = address }

-- `is_new`
abbrev pub is_new : ℕ → DeviceManager → Bool
is_new addr m =
    let sa = if is_slave addr then addr else slave_of addr in
    not (m.masters (master_of sa)) && not (m.slaves sa)

-- `d.unknown_devices++`, on 32 bits, for an address of which nothing has been seen.
abbrev pub count_unknown : ℕ → ℕ → DeviceManager → DeviceManager
count_unknown addr known m =
    if is_new addr m && not (m.identified_devices known)
    then record m { unknown_devices = (m.unknown_devices + 1) % 2 ^ 32 }
    else m

abbrev pub see_master : ℕ → DeviceManager → DeviceManager
see_master addr m = record m { masters = put addr m.masters }

abbrev pub see_slave : ℕ → DeviceManager → DeviceManager
see_slave addr m = record m { slaves = put addr m.slaves }

-- The first callback of `update`.
unfoldable pub observe : ℕ → ℕ → DeviceManager → DeviceManager
observe m_addr s_addr m =
    let seen = see_master m_addr (count_unknown m_addr (slave_of m_addr) m) in
    if not m.monitor
    then m
    else if is_slave s_addr
    then see_slave s_addr (count_unknown s_addr s_addr seen)
    else seen

-- What the monitor is told of a new device.
abbrev pub count_known : DeviceManager → DeviceManager
count_known m =
    if m.monitor
    then record m { unknown_devices = m.unknown_devices - 1; known_devices = length m.device_pool }
    else m

-- A new entry of the pool, which the device has not updated yet.
abbrev pub add_entry : ℕ → Device → DeviceManager → DeviceManager
add_entry addr d m = record m {
  device_pool = m.device_pool ++ d ∷ [];
  address_map = λ a. if addr == a then some (length m.device_pool) else m.address_map a;
  identified_devices = put addr m.identified_devices;
}

-- `updateEntry`
unfoldable pub update_entry : ℕ → List ℕ → List ℕ → DeviceManager → DeviceManager
update_entry addr master_view slave_view m =
    if addr == slave_of m.own_address then m else elim (m.address_map addr) [
      | none ↦
          if leb max_devices (length m.device_pool)
          then m
          else count_known (add_entry addr (Device.update addr master_view slave_view no_device) m)
      | some idx ↦ record m {
        device_pool =
            set m.device_pool idx
              (Device.update addr master_view slave_view (get_or m.device_pool idx no_device));
      }
    ]

-- The entry of the target of a telegram.
unfoldable pub update_target : ℕ → List ℕ → List ℕ → DeviceManager → DeviceManager
unfolding update_entry
update_target target master_view slave_view m =
    if is_master target
    then update_entry (slave_of target) master_view [] m
    else if is_slave target
    then update_entry target master_view slave_view m
    else m

-- A telegram has at least two bytes.
unfoldable pub update : List ℕ → List ℕ → DeviceManager → DeviceManager
unfolding observe update_entry update_target
update master_view slave_view m =
    let m_addr = get_or master_view 0 0 in
    let target = get_or master_view 1 0 in
    let observed = observe m_addr target m in
    update_target target master_view slave_view (
      if is_master m_addr then update_entry (slave_of m_addr) master_view [] observed else observed)

-- The loop from the address on, over so many addresses; none is the 256 of the source.
abbrev pub observed_from : ℕ → ℕ → DeviceManager → Option ℕ
observed_from zero addr m = none
observed_from (suc n) addr m =
    let later = observed_from n (addr + 1) m in
    if addr == slave_of m.own_address
    then later
    else if m.slaves addr
    then some addr
    else if is_master addr && m.masters addr
    then some (slave_of addr)
    else later

unfoldable pub find_next_observed_slave : ℕ → DeviceManager → Option ℕ
find_next_observed_slave start m = observed_from (256 - start) start m

-- The cursor behind the call, and the command.
unfoldable pub get_next_pending_vendor_command_for_device :
    ℕ → ℕ → DeviceManager → ℕ × Option (List ℕ)
get_next_pending_vendor_command_for_device addr cursor m = elim (m.address_map addr) [
  | none ↦ (4, none)
  | some idx ↦
      if ltb cursor 4
      then get_next_pending_vendor_command cursor (get_or m.device_pool idx no_device)
      else (4, none)
]

abbrev pub pending_from : ℕ → ℕ → DeviceManager → Option (ℕ × List ℕ)
pending_from zero addr m = none
pending_from (suc n) addr m =
    let later = pending_from n (addr + 1) m in
    elim (m.address_map addr) [
      | none ↦ later
      | some idx ↦ elim (get_first_pending_vendor_command (get_or m.device_pool idx no_device)) [
        | none ↦ later
        | some command ↦ some (addr, command)
      ]
    ]

unfoldable pub find_next_pending_vendor_command : ℕ → DeviceManager → Option (ℕ × List ℕ)
find_next_pending_vendor_command start m = pending_from (256 - start) start m

abbrev pub is_identified : ℕ → DeviceManager → Bool
is_identified addr m = elim (m.address_map addr) [
  | none ↦ false
  | some idx ↦ (get_or m.device_pool idx no_device).identified
]

abbrev pub is_found : Option (ℕ × List ℕ) → Bool
is_found none = false
is_found (some found) = true

-- Any address from the device's on counts.
unfoldable pub needs_deep_scan : ℕ → DeviceManager → Bool
unfolding find_next_pending_vendor_command
needs_deep_scan addr m = is_identified addr m && is_found (find_next_pending_vendor_command addr m)

-- The loop of `getObservedSlaves`, as the test whether an address is set by the rounds of the masters and
-- of the slaves.
abbrev pub master_gives : ℕ → ℕ → DeviceManager → Bool
master_gives zero addr m = false
master_gives (suc i) addr m =
    (m.masters i && not (i == m.own_address) && slave_of i == addr) || master_gives i addr m

unfoldable pub get_observed_slaves : DeviceManager → Bits
get_observed_slaves m addr =
    (ltb addr 256 && m.slaves addr && not (addr == slave_of m.own_address))
    || master_gives 256 addr m
