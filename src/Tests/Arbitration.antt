-- ===== src/Tests/Arbitration.antt =====
-- src/ebus/core/request.cpp on concrete bytes.
use ebus.Base.{[], arith, false, not, refl, replicate, true, ◌∷◌, ◌≡◌, ◌≤◌}
use ebus.Symbols
use ebus.Address.{is_master}
use ebus.Types.{RequestResult}
use ebus.Request.{Request, bus_available, initial, run}
use ebus.Request.Transitions.{classify, outcome, run-outcome}
use ebus.Request.Lock.{IsBounded, is_won, run_all, syns_unlock, won_locks}
use ebus.Request.Arbitration.{contend, duel, duel_lem, precedes}

-- A master 0x10 that has put its address on the bus.
abbrev contender : Request
contender = contend 0x10 initial

run-outcome_example :
    ((run 0x30 contender).state ≡ (outcome contender.state (classify 0x10 0x30)).0)
    × ((run 0x30 contender).result ≡ (outcome contender.state (classify 0x10 0x30)).1)
run-outcome_example = run-outcome 0x30 contender (omega arith) (omega arith) (ground arith)

rival_retries : (run 0x30 contender).result ≡ RequestResult.first_retry
unfolding run is_master
rival_retries = refl

initial-IsBounded : IsBounded initial
initial-IsBounded = record { counter = omega arith; limit = omega arith }

wins : is_won (run 0x10 contender).result ≡ true
unfolding run
wins = refl

won_locks_example : bus_available (run_all (0xaa ∷ 0x31 ∷ 0xaa ∷ []) (run 0x10 contender)) ≡ false
won_locks_example = won_locks 0x10 (0xaa ∷ 0x31 ∷ 0xaa ∷ []) contender wins (omega arith)

syns_unlock_example :
    let q = run Symbols.syn initial in
    (q.lock_counter ≤ 3) × (bus_available (run_all (replicate q.lock_counter Symbols.syn) q) ≡ true)
syns_unlock_example = syns_unlock initial refl refl

master_13 : is_master 0x13 ≡ true
unfolding is_master
master_13 = refl

master_33 : is_master 0x33 ≡ true
unfolding is_master
master_33 = refl

duel_lem_example :
    let r = duel (contend 0x13 initial, contend 0x33 initial) in
    (is_won r.0.result ≡ precedes 0x13 0x33)
    × (is_won r.1.result ≡ precedes 0x33 0x13)
    × (precedes 0x33 0x13 ≡ not (precedes 0x13 0x33))
duel_lem_example =
    duel_lem initial initial 0x13 0x33 (omega arith) (omega arith) master_13 master_33
      (ground arith)
