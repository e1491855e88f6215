-- ===== src/DeviceManager/Inventory.antt =====
-- The address map and the pool of src/ebus/app/device_manager.cpp agree.
use ebus.Address.{is_master, is_slave, slave_of}
use ebus.Base.{
  Bool, Bool-cases, List, Option, [], arith, false, get_or, get_or-append, get_or-append_end, subst,
  ap, ◌∙◌, if◌then◌else◌, inl, inr, leb, length, length-append, none, refl, set, some, suc, sym,
  true, zero, ℕ, ◌++◌, ◌<◌, ◌≤◌, ◌==◌, ◌∷◌, ◌≡◌,
}
use ebus.Device
use ebus.Device.{Device, no_device}
use ebus.DeviceManager.{
  DeviceManager, add_entry, count_known, max_devices, observe, update, update_entry, update_target,
}

abbrev pub is_some : Option ℕ → Bool
is_some none = false
is_some (some idx) = true

-- An entry of the map is the place of the device with that address, the pool is not overrun, and the set of
-- identified devices is that of the entries.
pub record IsInventory (m : DeviceManager) : Type 0 where
  pub placed :
      (addr idx : ℕ)
      → m.address_map addr ≡ some idx
      → (idx < length m.device_pool) × ((get_or m.device_pool idx no_device).slave ≡ addr)
  pub fits : length m.device_pool ≤ max_devices
  pub marked : (addr : ℕ) → m.identified_devices addr ≡ is_some (m.address_map addr)

-- What the invariant does not speak of may change.
abbrev Same : DeviceManager → DeviceManager → Type 0
Same m m' =
    (m'.device_pool ≡ m.device_pool)
    × (m'.address_map ≡ m.address_map)
    × (m'.identified_devices ≡ m.identified_devices)

Same-IsInventory : (m m' : DeviceManager) → Same m m' → IsInventory m → IsInventory m'
Same-IsInventory m m' (pool, map, marks) v = record {
  placed = λ addr idx e. rw pool (v.placed addr idx (ground (arith, map)));
  fits = rw pool v.fits;
  marked = λ addr. rw (map, marks) (v.marked addr);
}

count_known-Same : (m : DeviceManager) → Same m (count_known m)
count_known-Same m = (ground arith, ground arith, ground arith)

slave-update :
    (addr : ℕ) (master_view slave_view : List ℕ) (d : Device)
    → (Device.update addr master_view slave_view d).slave ≡ addr
unfolding Device.update Device.store
slave-update addr master_view slave_view d = ground arith

add_entry-placed :
    (addr : ℕ) (d : Device) (m : DeviceManager)
    → d.slave ≡ addr
    → IsInventory m
    → (a idx : ℕ) → (add_entry addr d m).address_map a ≡ some idx
    → (idx < length (m.device_pool ++ d ∷ []))
      × ((get_or (m.device_pool ++ d ∷ []) idx no_device).slave ≡ a)
add_entry-placed addr d m s v a idx f =
    let longer = length-append m.device_pool (d ∷ []) in
    elim (Bool-cases (addr == a)) [
      | inl new ↦
          let last : length m.device_pool ≡ idx = ground arith in
          let there = get_or-append_end m.device_pool (d ∷ []) no_device in
          (
            ground arith,
            subst (λ i. (get_or (m.device_pool ++ d ∷ []) i no_device).slave ≡ a) last
                (ground (arith, there)),
          )
      | inr old ↦
          let (below, slave) = v.placed a idx (ground arith) in
          let there = get_or-append m.device_pool (d ∷ []) idx no_device below in
          (ground arith, ap (λ x. x.slave) there ∙ slave)
    ]

add_entry-IsInventory :
    (addr : ℕ) (d : Device) (m : DeviceManager)
    → d.slave ≡ addr
    → length m.device_pool < max_devices
    → m.address_map addr ≡ none
    → IsInventory m
    → IsInventory (add_entry addr d m)
add_entry-IsInventory addr d m s l e v = record {
  placed = λ a idx f. add_entry-placed addr d m s v a idx f;
  fits = ground (arith, length-append m.device_pool (d ∷ []));
  marked = λ a. ground (arith, v.marked a);
}

set_device-placed :
    (pool : List Device) (i j : ℕ) (d : Device)
    → d.slave ≡ (get_or pool i no_device).slave
    → (length (set pool i d) ≡ length pool)
      × ((get_or (set pool i d) j no_device).slave ≡ (get_or pool j no_device).slave)
set_device-placed [] i j d e = (refl, refl)
set_device-placed (x ∷ pool) zero zero d e = (refl, e)
set_device-placed (x ∷ pool) zero (suc j) d e = (refl, refl)
set_device-placed (x ∷ pool) (suc i) zero d e =
    (ground (arith, set_device-placed pool i zero d e), refl)
set_device-placed (x ∷ pool) (suc i) (suc j) d e =
    let (same, slave) = set_device-placed pool i j d e in (ground (arith, same), slave)

-- A device in the pool has been updated in its place.
set_device-IsInventory :
    (addr idx : ℕ) (d : Device) (m : DeviceManager)
    → m.address_map addr ≡ some idx
    → d.slave ≡ addr
    → IsInventory m
    → IsInventory (record m { device_pool = set m.device_pool idx d })
set_device-IsInventory addr idx d m e s v =
    let (below, slave) = v.placed addr idx e in
    let kept = λ (j : ℕ). set_device-placed m.device_pool idx j d (s ∙ sym slave) in
    record {
      placed = λ a j f.
          let (inside, here) = v.placed a j f in (ground (arith, (kept j).0), (kept j).1 ∙ here);
      fits = ground (arith, (kept 0).0, v.fits);
      marked = v.marked;
    }

entry-IsInventory :
    (addr : ℕ) (master_view slave_view : List ℕ) (m : DeviceManager) (entry : Option ℕ)
    → m.address_map addr ≡ entry
    → IsInventory m
    → IsInventory (elim entry as (λ _. DeviceManager) [
      | none ↦
          if leb max_devices (length m.device_pool)
          then m
          else count_known (add_entry addr (Device.update addr master_view slave_view no_device) m)
      | some idx ↦ record m {
        device_pool =
            set m.device_pool idx
              (Device.update addr master_view slave_view (get_or m.device_pool idx no_device));
      }
    ])
entry-IsInventory addr master_view slave_view m (some idx) e v =
    let d = get_or m.device_pool idx no_device in
    set_device-IsInventory addr idx (Device.update addr master_view slave_view d) m e
      (slave-update addr master_view slave_view d) v
entry-IsInventory addr master_view slave_view m none e v =
    elim (Bool-cases (leb max_devices (length m.device_pool))) [
      | inl full ↦ rw full v
      | inr room ↦
          let d = Device.update addr master_view slave_view no_device in
          let added = add_entry addr d m in
          let v' =
            add_entry-IsInventory addr d m (slave-update addr master_view slave_view no_device)
              (ground arith) e v in
          rw room (Same-IsInventory added (count_known added) (count_known-Same added) v')
    ]

update_entry-IsInventory :
    (addr : ℕ) (master_view slave_view : List ℕ) (m : DeviceManager)
    → IsInventory m
    → IsInventory (update_entry addr master_view slave_view m)
unfolding update_entry
update_entry-IsInventory addr master_view slave_view m v =
    elim (Bool-cases (addr == slave_of m.own_address)) [
      | inl own ↦ rw own v
      | inr other ↦
          rw other (entry-IsInventory addr master_view slave_view m (m.address_map addr) refl v)
    ]

observe-Same : (m_addr s_addr : ℕ) (m : DeviceManager) → Same m (observe m_addr s_addr m)
unfolding observe
observe-Same m_addr s_addr m = (ground arith, ground arith, ground arith)

update_target-IsInventory :
    (target : ℕ) (master_view slave_view : List ℕ) (m : DeviceManager)
    → IsInventory m
    → IsInventory (update_target target master_view slave_view m)
unfolding update_target
update_target-IsInventory target master_view slave_view m v = elim (Bool-cases (is_master target)) [
  | inl master ↦ rw master (update_entry-IsInventory (slave_of target) master_view [] m v)
  | inr other ↦ elim (Bool-cases (is_slave target)) [
    | inl slave ↦ rw (other, slave) (update_entry-IsInventory target master_view slave_view m v)
    | inr neither ↦ rw (other, neither) v
  ]
]

-- A telegram keeps the inventory: each entry of the address map is the place in the pool of the device with
-- that address, the pool holds at most 16 devices, and the set of identified devices is that of the entries.
pub update-IsInventory :
    (master_view slave_view : List ℕ) (m : DeviceManager)
    → IsInventory m
    → IsInventory (update master_view slave_view m)
unfolding update
update-IsInventory master_view slave_view m v =
    let m_addr = get_or master_view 0 0 in
    let target = get_or master_view 1 0 in
    let observed = observe m_addr target m in
    let v' = Same-IsInventory m observed (observe-Same m_addr target m) v in
    update_target-IsInventory target master_view slave_view _
      (elim (Bool-cases (is_master m_addr)) [
        | inl master ↦
            rw master (update_entry-IsInventory (slave_of m_addr) master_view [] observed v')
        | inr other ↦ rw other v'
      ])
