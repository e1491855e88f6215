-- ===== src/Request/Lock.antt =====
-- The lock counter of src/ebus/core/request.cpp: its bounds, and how it keeps a winner off the bus.
use ebus.Base.{
  Bool, List, [], arith, false, if◌then◌else◌, replicate, suc, true, zero, ℕ, ◌+◌, ◌-◌, ◌<◌, ◌==◌,
  ◌∷◌, ◌≡◌, ◌≤◌,
}
use ebus.Symbols
use ebus.Types.{RequestState, RequestResult}
use ebus.Request.{
  Request, bus_request_completed, max_lock_counter, request_bus, reset, run, run_in,
  set_lock_counter, start_bit, transition_to, bus_available, collision_byte_count,
}

pub record IsBounded (r : Request) : Type 0 where
  pub counter : r.lock_counter ≤ r.lock_counter_max
  pub limit : r.lock_counter_max ≤ max_lock_counter

transition_to_fields :
    (next : RequestState) (r : Request)
    → ((transition_to next r).lock_counter ≡ r.lock_counter)
      × ((transition_to next r).lock_counter_max ≡ r.lock_counter_max)
unfolding transition_to
transition_to_fields next r = ground arith

run_in-IsBounded :
    (s : RequestState) (byte : ℕ) (r : Request) → IsBounded r → IsBounded (run_in s byte r)
unfolding run_in
run_in-IsBounded RequestState.observe byte r v = ground arith
run_in-IsBounded _ byte r v = ground arith

-- The calls on the machine.
pub data Call : Type 0 where
  resets completes starts : Call
  locks : ℕ → Call
  requests : ℕ → Bool → Call
  runs : ℕ → Call

abbrev pub call : Call → Request → Request
call resets r = reset r
call completes r = bus_request_completed r
call starts r = start_bit r
call (locks n) r = set_lock_counter n r
call (requests address external) r = (request_bus address external r).0
call (runs byte) r = run byte r

-- Every call keeps the lock counter within its maximum, and the maximum within 25.
pub call-IsBounded : (c : Call) (r : Request) → IsBounded r → IsBounded (call c r)
unfolding reset bus_request_completed start_bit set_lock_counter request_bus
call-IsBounded (runs byte) r v = unfold run in run_in-IsBounded r.state byte r v
call-IsBounded _ r v = ground arith

abbrev pub run_all : List ℕ → Request → Request
run_all [] r = r
run_all (b ∷ bs) r = run_all bs (run b r)

abbrev pub count_syn : List ℕ → ℕ
count_syn [] = 0
count_syn (b ∷ bs) = (if b == Symbols.syn then 1 else 0) + count_syn bs

run-observe :
    (b : ℕ) (r : Request)
    → r.state ≡ RequestState.observe
    → ((run b r).state ≡ RequestState.observe)
      × (r.lock_counter ≤ (run b r).lock_counter + (if b == Symbols.syn then 1 else 0))
unfolding run run_in
run-observe b r e = rw (e, run_in) (ground arith)

run_all-observe :
    (bs : List ℕ) (r : Request)
    → r.state ≡ RequestState.observe
    → ((run_all bs r).state ≡ RequestState.observe)
      × (r.lock_counter ≤ (run_all bs r).lock_counter + count_syn bs)
run_all-observe [] r e = (e, omega arith)
run_all-observe (b ∷ bs) r e =
    let one = run-observe b r e in
    let rest = run_all-observe bs (run b r) one.0 in (rest.0, omega (arith, one.1, rest.1))

abbrev pub is_won : RequestResult → Bool
is_won RequestResult.first_won = true
is_won RequestResult.second_won = true
is_won _ = false

run_in_won :
    (s : RequestState) (byte : ℕ) (r : Request)
    → is_won (run_in s byte r).result ≡ true
    → ((run_in s byte r).state ≡ RequestState.observe)
      × ((run_in s byte r).lock_counter ≡ r.lock_counter_max)
unfolding run_in transition_to
run_in_won RequestState.observe byte r h = ground arith
run_in_won _ byte r h = ground arith

locked-not-available : (r : Request) → 0 < r.lock_counter → bus_available r ≡ false
unfolding bus_available
locked-not-available r h = ground arith

-- Fairness: behind a byte that wins the arbitration the bus is not available to this master again
-- until the bus has carried `lock_counter_max` SYNs, whatever else it carries.
pub won_locks :
    (byte : ℕ) (bs : List ℕ) (r : Request)
    → is_won (run byte r).result ≡ true
    → count_syn bs < r.lock_counter_max
    → bus_available (run_all bs (run byte r)) ≡ false
unfolding run
won_locks byte bs r h few =
    let win = run_in_won r.state byte r h in
    locked-not-available (run_all bs (run byte r))
      (omega (arith, (run_all-observe bs (run byte r) win.0).1, win.1))

-- What a SYN does to an observing machine that waits for the bus.
run-syn :
    (r : Request)
    → r.state ≡ RequestState.observe
    → let q = run Symbols.syn r in
      (q.state ≡ RequestState.observe)
      × (q.result ≡ RequestResult.observe_syn)
      × (q.bytes_since_syn ≡ 0)
      × (q.bus_request ≡ r.bus_request)
      × (q.lock_counter ≡ (
          if r.bytes_since_syn == collision_byte_count then r.lock_counter else r.lock_counter - 1))
unfolding run run_in
run-syn r e = rw (e, run_in) (ground arith)

record Idle (n : ℕ) (r : Request) : Type 0 where
  observes : r.state ≡ RequestState.observe
  synced : r.result ≡ RequestResult.observe_syn
  clean : r.bytes_since_syn ≡ 0
  unasked : r.bus_request ≡ false
  counter : r.lock_counter ≡ n

run_syns :
    (n : ℕ) (r : Request) → Idle n r → bus_available (run_all (replicate n Symbols.syn) r) ≡ true
run_syns zero r v = unfold bus_available in ground arith
run_syns (suc n) r v = run_syns n (run Symbols.syn r) (ground (arith, run-syn r v.observes))

-- Progress: from any observing state without a pending request, one SYN and then as many as the lock
-- counter reads make the bus available.
pub syns_unlock :
    (r : Request)
    → r.state ≡ RequestState.observe
    → r.bus_request ≡ false
    → let q = run Symbols.syn r in
      (q.lock_counter ≤ r.lock_counter)
      × (bus_available (run_all (replicate q.lock_counter Symbols.syn) q) ≡ true)
syns_unlock r e free =
    let q = run Symbols.syn r in
    let done = run-syn r e in
    (ground (arith, done), run_syns q.lock_counter q (ground (arith, done)))
