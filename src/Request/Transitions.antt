-- ===== src/Request/Transitions.antt =====
-- The arbitration machine of src/ebus/core/request.cpp against a table of what it may see and answer.
use ebus.Base.{
  ==_iff, holds_below, holds_below_at, arith, bit_and, false, if◌then◌else◌, refl, true, ℕ, ◌%◌,
  ◌<◌, ◌==◌, ◌≡◌, ◌≢◌,
}
use ebus.Symbols
use ebus.Address.{is_master}
use ebus.Types.{RequestState, RequestResult}
use ebus.Request.{Request, run_in, transition_to, transition_masks, run}

-- What a byte means to a master that sent `address`: its low nibble is the priority class.
pub data Seen : Type 0 where
  syn own rival stranger noise : Seen

unfoldable pub classify : ℕ → ℕ → Seen
classify address byte =
    if byte == Symbols.syn
    then syn
    else if byte == address
    then own
    else if is_master byte
    then (if byte % 16 == address % 16 then rival else stranger)
    else noise

-- The next state and the result, by state and by what was seen.
abbrev pub outcome : RequestState → Seen → RequestState × RequestResult
outcome RequestState.observe syn = (RequestState.observe, RequestResult.observe_syn)
outcome RequestState.observe _ = (RequestState.observe, RequestResult.observe_data)
outcome RequestState.first syn = (RequestState.first, RequestResult.first_syn)
outcome RequestState.first own = (RequestState.observe, RequestResult.first_won)
outcome RequestState.first rival = (RequestState.retry, RequestResult.first_retry)
outcome RequestState.first stranger = (RequestState.observe, RequestResult.first_lost)
outcome RequestState.first noise = (RequestState.observe, RequestResult.first_error)
outcome RequestState.retry syn = (RequestState.second, RequestResult.retry_syn)
outcome RequestState.retry _ = (RequestState.observe, RequestResult.retry_error)
outcome RequestState.second own = (RequestState.observe, RequestResult.second_won)
outcome RequestState.second rival = (RequestState.observe, RequestResult.second_lost)
outcome RequestState.second stranger = (RequestState.observe, RequestResult.second_lost)
outcome RequestState.second _ = (RequestState.observe, RequestResult.second_error)

low_nibble_table : holds_below 256 (λ b. bit_and b 0x0f == b % 16) ≡ true
unfolding holds_below
low_nibble_table = refl

pub low_nibble : (b : ℕ) → b < 256 → bit_and b 0x0f ≡ b % 16
low_nibble b h =
    (==_iff _ _).0 (holds_below_at 256 (λ b. bit_and b 0x0f == b % 16) b low_nibble_table h)

not_master_syn : is_master Symbols.syn ≡ false
unfolding is_master
not_master_syn = refl

run_in-outcome :
    (s : RequestState) (byte : ℕ) (r : Request)
    → r.state ≡ s
    → byte < 256
    → r.request_address < 256
    → r.request_address ≢ Symbols.syn
    → ((run_in s byte r).state ≡ (outcome s (classify r.request_address byte)).0)
      × ((run_in s byte r).result ≡ (outcome s (classify r.request_address byte)).1)
unfolding run_in classify transition_to transition_masks
run_in-outcome RequestState.observe byte r e hb ha ne = ground arith
run_in-outcome RequestState.first byte r e hb ha ne =
    ground (arith, low_nibble byte hb, low_nibble r.request_address ha)
run_in-outcome RequestState.retry byte r e hb ha ne = ground arith
run_in-outcome RequestState.second byte r e hb ha ne = ground (arith, not_master_syn)

-- On every byte the machine goes to the state and gives the result of the table `outcome`, for the
-- byte's meaning to the address in use. The address is a byte other than SYN.
pub run-outcome :
    (byte : ℕ) (r : Request)
    → byte < 256
    → r.request_address < 256
    → r.request_address ≢ Symbols.syn
    → ((run byte r).state ≡ (outcome r.state (classify r.request_address byte)).0)
      × ((run byte r).result ≡ (outcome r.state (classify r.request_address byte)).1)
unfolding run
run-outcome byte r = run_in-outcome r.state byte r refl
