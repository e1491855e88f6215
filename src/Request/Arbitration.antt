-- ===== src/Request/Arbitration.antt =====
-- Two machines of src/ebus/core/request.cpp on one wire, where a 0 bit wins over a 1 bit.
use ebus.Base.{
  Bool, holds_below, holds_below_at, arith, bit_and, false, if◌then◌else◌, ltb, not, refl, sym,
  true, ℕ, ◌%◌, ◌&&◌, ◌/◌, ◌<◌, ◌==◌, ◌||◌, ◌≡◌, ◌≢◌,
}
use ebus.Symbols
use ebus.Address.{is_master}
use ebus.Types.{RequestState}
use ebus.Request.{Request, run}
use ebus.Request.Lock.{is_won}

-- A machine that has just put its address on the bus, in the first round.
abbrev pub contend : ℕ → Request → Request
contend address r = record r { state = RequestState.first; request_address = address }

-- What a machine drives onto the wire: its address while it arbitrates, else the idle level.
abbrev wire_of : RequestState → ℕ → ℕ
wire_of RequestState.first address = address
wire_of RequestState.second address = address
wire_of _ address = 0xff

abbrev pub wire : Request → ℕ
wire r = wire_of r.state r.request_address

-- Both read back what the wire carries.
pub round : Request × Request → Request × Request
round (p, q) = let byte = bit_and (wire p) (wire q) in (run byte p, run byte q)

pub synchronise : Request × Request → Request × Request
synchronise (p, q) = (run Symbols.syn p, run Symbols.syn q)

-- One round; if nobody has won, a SYN and the second round.
pub duel : Request × Request → Request × Request
unfolding round synchronise
duel (p, q) =
    let (p', q') = round (p, q) in
    let again = round (synchronise (p', q')) in
    if is_won p'.result || is_won q'.result then (p', q') else again

-- The order of the masters: the priority class, which is the low nibble, then the upper nibble.
abbrev pub precedes : ℕ → ℕ → Bool
precedes a b = ltb (a % 16) (b % 16) || (a % 16 == b % 16 && ltb (a / 16) (b / 16))

abbrev same : Bool → Bool → Bool
same true b = b
same false b = not b

abbrev decided : ℕ → ℕ → Request × Request → Bool
decided a b (p, q) = same (is_won p.result) (precedes a b) && same (is_won q.result) (precedes b a)

abbrev fair_pair : Request → Request → ℕ → ℕ → Bool
fair_pair p q a b =
    not (is_master a)
    || (not (is_master b) || (a == b || decided a b (duel (contend a p, contend b q))))

duel_table : (p q : Request) → holds_below 256 (λ a. holds_below 256 (fair_pair p q a)) ≡ true
unfolding holds_below is_master duel run
duel_table p q = refl

fair_pair_all : (p q : Request) (a b : ℕ) → a < 256 → b < 256 → fair_pair p q a b ≡ true
fair_pair_all p q a b ha hb =
    holds_below_at 256 (fair_pair p q a) b
      (holds_below_at 256 (λ a. holds_below 256 (fair_pair p q a)) a (duel_table p q) ha) hb

same→≡ : (x y : Bool) → same x y ≡ true → x ≡ y
same→≡ true y h = sym h
same→≡ false true h = cc
same→≡ false false h = refl

split_decided :
    (a b : ℕ) (r : Request × Request)
    → decided a b r ≡ true
    → (is_won r.0.result ≡ precedes a b) × (is_won r.1.result ≡ precedes b a)
split_decided a b (p, q) h = (same→≡ _ _ (ground (arith, h)), same→≡ _ _ (ground (arith, h)))

-- Two masters with different addresses that start to arbitrate together: at most two rounds later
-- one of them has won and the other has not. The winner is the one whose priority class is smaller,
-- and within one class the one whose upper nibble is smaller.
pub duel_lem :
    (p q : Request) (a b : ℕ)
    → a < 256
    → b < 256
    → is_master a ≡ true
    → is_master b ≡ true
    → a ≢ b
    → let r = duel (contend a p, contend b q) in
      (is_won r.0.result ≡ precedes a b)
      × (is_won r.1.result ≡ precedes b a)
      × (precedes b a ≡ not (precedes a b))
duel_lem p q a b ha hb ma mb ne =
    let r = duel (contend a p, contend b q) in
    let d : decided a b r ≡ true = ground (arith, fair_pair_all p q a b ha hb) in
    let s = split_decided a b r d in (s.0, s.1, ground arith)
