-- ===== src/DeviceScanner/Ends.antt =====
-- The loop of the deep scans of src/ebus/app/device_scanner.cpp ends.
use ebus.Base.{
  Bool, false, not, true, Bool-cases, List, Option, ap, arith, if◌then◌else◌, inl, inr, none, refl,
  some, suc, zero, ℕ, ◌+◌, ◌<◌, ◌≤◌, ◌≡◌,
}
use ebus.DeviceManager.{
  Bits, DeviceManager, get_next_pending_vendor_command_for_device, is_identified, reset,
}
use ebus.DeviceScanner.Next.{deep_scan, first_set, is_barred, pass_by, pick, visit}
use ebus.DeviceScanner.{DeviceScanner}

-- How many bits are set among so many from the index on.
unfoldable bits_in : ℕ → ℕ → Bits → ℕ
bits_in zero i bits = 0
bits_in (suc n) i bits = (if bits i then 1 else 0) + bits_in n (i + 1) bits

bits_in-le : (n i : ℕ) (bits : Bits) → bits_in n i bits ≤ n
unfolding bits_in
bits_in-le zero i bits = omega arith
bits_in-le (suc n) i bits = ground (arith, bits_in-le n (i + 1) bits)

bits_in-reset_below :
    (n i j : ℕ) (bits : Bits) → j < i → bits_in n i (reset j bits) ≡ bits_in n i bits
unfolding bits_in
bits_in-reset_below zero i j bits l = refl
bits_in-reset_below (suc n) i j bits l =
    ground (arith, bits_in-reset_below n (i + 1) j bits (omega arith))

first_set-from : (n i j : ℕ) (bits : Bits) → first_set n i bits ≡ some j → i ≤ j
unfolding first_set
first_set-from zero i j bits e = absurd (ground arith)
first_set-from (suc n) i j bits e = elim (Bool-cases (bits i)) [
  | inl on ↦ ground arith
  | inr off ↦ let later = first_set-from n (i + 1) j bits (simp off at e) in omega (arith, later)
]

first_set-reset :
    (n i j : ℕ) (bits : Bits)
    → first_set n i bits ≡ some j
    → bits_in n i (reset j bits) + 1 ≡ bits_in n i bits
unfolding first_set bits_in
first_set-reset zero i j bits e = absurd (ground arith)
first_set-reset (suc n) i j bits e = elim (Bool-cases (bits i)) [
  | inl on ↦
      let same : i ≡ j = ground arith in
      let rest = bits_in-reset_below n (i + 1) j bits (omega (arith, same)) in ground (arith, rest)
  | inr off ↦
      let later = simp off at e in
      let above = first_set-from n (i + 1) j bits later in
      let rest = first_set-reset n (i + 1) j bits later in ground (arith, rest, above)
]

-- The addresses that are pending or under way.
abbrev work : DeviceScanner → ℕ
work s =
    bits_in 256 0 s.pending_deep_scans
    + elim s.current_deep_scan_address [ none ↦ 0 | some addr ↦ 1 ]

-- A round that has an address takes it from the work.
pass_by-work :
    (m : DeviceManager) (addr : ℕ) (p : DeviceScanner)
    → work (pass_by m addr p) ≡ bits_in 256 0 p.pending_deep_scans
unfolding pass_by
pass_by-work m addr p = ground arith

pick-work :
    (s : DeviceScanner) (addr : ℕ) (current first : Option ℕ)
    → s.current_deep_scan_address ≡ current
    → first_set 256 0 s.pending_deep_scans ≡ first
    → (pick s).current_deep_scan_address ≡ some addr
    → bits_in 256 0 (pick s).pending_deep_scans + 1 ≡ work s
unfolding pick
pick-work s addr (some a) first c f e = ground arith
pick-work s addr none none c f e = absurd (ground arith)
pick-work s addr none (some j) c f e =
    ground (arith, first_set-reset 256 0 j s.pending_deep_scans f)

-- The later rounds matter only where there is an address.
rest_only :
    (m : DeviceManager) (now : ℕ) (p : DeviceScanner) (current : Option ℕ)
    (f g : ℕ → DeviceScanner × Option (List ℕ))
    → ((addr : ℕ) → current ≡ some addr → f addr ≡ g addr)
    → (elim current as (λ _. DeviceScanner × Option (List ℕ)) [
      | none ↦ (p, none)
      | some addr ↦ visit m now addr p (f addr)
    ])
      ≡ elim current [ none ↦ (p, none) | some addr ↦ visit m now addr p (g addr) ]
rest_only m now p none f g same = refl
rest_only m now p (some addr) f g same = ap (visit m now addr p) (same addr refl)

deep_scan_same :
    (m : DeviceManager) (now a b : ℕ) (s : DeviceScanner)
    → work s < a
    → work s < b
    → deep_scan m now a s ≡ deep_scan m now b s
unfolding deep_scan
deep_scan_same m now zero b s l k = absurd (omega arith)
deep_scan_same m now (suc a) zero s l k = absurd (omega arith)
deep_scan_same m now (suc a) (suc b) s l k =
    let p = pick s in
    rest_only m now p p.current_deep_scan_address (λ addr. deep_scan m now a (pass_by m addr p))
      (λ addr. deep_scan m now b (pass_by m addr p))
      (λ addr e.
        let picked =
          pick-work s addr s.current_deep_scan_address (first_set 256 0 s.pending_deep_scans) refl
            refl e in
        let passed = pass_by-work m addr p in
        deep_scan_same m now a b (pass_by m addr p) (omega (arith, picked, passed))
          (omega (arith, picked, passed)))

-- The loop is over: it has given a command, or no address is under way and none is pending.
abbrev pub Ended : DeviceScanner × Option (List ℕ) → Type 0
Ended (s, some command) = Unit {0}
Ended (s, none) =
    (s.current_deep_scan_address ≡ none) × (first_set 256 0 s.pending_deep_scans ≡ none)

pick-none :
    (s : DeviceScanner) (current first : Option ℕ)
    → s.current_deep_scan_address ≡ current
    → first_set 256 0 s.pending_deep_scans ≡ first
    → (pick s).current_deep_scan_address ≡ none
    → Ended (pick s, none)
unfolding pick
pick-none s (some a) first c f e = absurd (ground arith)
pick-none s none none c f e = (ground arith, ground arith)
pick-none s none (some j) c f e = absurd (ground arith)

Ended-if :
    (b : Bool) (x y : DeviceScanner × Option (List ℕ))
    → Ended x
    → Ended y
    → Ended (if b then x else y)
Ended-if true x y h k = h
Ended-if false x y h k = k

visit-Ended :
    (m : DeviceManager) (now addr : ℕ) (p : DeviceScanner) (rest : DeviceScanner × Option (List ℕ))
    → Ended rest
    → Ended (visit m now addr p rest)
unfolding visit
visit-Ended m now addr p rest h = Ended-if (is_barred addr p) _ _ h (
    Ended-if (not (is_identified addr m)) _ _ tt (
      by_command
        (get_next_pending_vendor_command_for_device addr p.current_deep_scan_vendor_cursor m).1
        (λ cmd. record p {
          last_scan_attempt = some now;
          current_deep_scan_vendor_cursor =
              (get_next_pending_vendor_command_for_device addr p.current_deep_scan_vendor_cursor
                m).0;
        })))
  where
    by_command :
        (command : Option (List ℕ)) (f : List ℕ → DeviceScanner)
        → Ended (elim command [ none ↦ rest | some cmd ↦ (f cmd, some cmd) ])
    by_command none f = h
    by_command (some cmd) f = tt

after :
    (m : DeviceManager) (now : ℕ) (p : DeviceScanner) (current : Option ℕ)
    (f : ℕ → DeviceScanner × Option (List ℕ))
    → (current ≡ none → Ended (p, none))
    → ((addr : ℕ) → current ≡ some addr → Ended (f addr))
    → Ended (elim current [ none ↦ (p, none) | some addr ↦ visit m now addr p (f addr) ])
after m now p none f h k = h refl
after m now p (some addr) f h k = visit-Ended m now addr p (f addr) (k addr refl)

deep_scan-Ended :
    (m : DeviceManager) (now fuel : ℕ) (s : DeviceScanner)
    → work s < fuel
    → Ended (deep_scan m now fuel s)
unfolding deep_scan
deep_scan-Ended m now zero s l = absurd (omega arith)
deep_scan-Ended m now (suc fuel) s l =
    let p = pick s in
    after m now p p.current_deep_scan_address (λ addr. deep_scan m now fuel (pass_by m addr p))
      (pick-none s s.current_deep_scan_address (first_set 256 0 s.pending_deep_scans) refl refl)
      (λ addr e.
        let picked =
          pick-work s addr s.current_deep_scan_address (first_set 256 0 s.pending_deep_scans) refl
            refl e in
        let passed = pass_by-work m addr p in
        deep_scan-Ended m now fuel (pass_by m addr p) (omega (arith, picked, passed)))

-- The loop of the deep scans is over within 258 rounds, and more of them come to the same: then it has given a
-- command, or no address is under way and none is pending.
pub deep_scan_ends :
    (m : DeviceManager) (now more : ℕ) (s : DeviceScanner)
    → Ended (deep_scan m now 258 s) × (deep_scan m now (258 + more) s ≡ deep_scan m now 258 s)
deep_scan_ends m now more s =
    let bound = bits_in-le 256 0 s.pending_deep_scans in
    (
      deep_scan-Ended m now 258 s (ground (arith, bound)),
      deep_scan_same m now (258 + more) 258 s (ground (arith, bound)) (ground (arith, bound)),
    )
