-- ===== src/Request.antt =====
-- src/ebus/core/request.hpp and request.cpp: the arbitration state machine. A call on the monitor or
-- on a callback is an event of the record's log, oldest first; the atomic flags are plain fields.
pub mod Transitions
pub mod Lock
pub mod Arbitration
use ebus.Base.{
  Bool, List, [], bit_and, bit_or, false, if◌then◌else◌, ltb, min, not, true, ℕ, ◌%◌, ◌&&◌, ◌++◌,
  ◌+◌, ◌-◌, ◌==◌, ◌^◌, ◌∷◌,
}
use ebus.Symbols
use ebus.Address.{is_master}
use ebus.Types.{RequestState, RequestResult}

pub data RequestMetric : Type 0 where
  lock_counter_reset bus_request_blocked first_syn won_total collisions lost_total : RequestMetric
  arbitration_errors : RequestMetric

pub data RequestEvent : Type 0 where
  count : RequestMetric → RequestEvent
  log_request_transition : RequestState → RequestState → RequestEvent
  handler_bus_requested_callback external_bus_requested_callback start_bit_callback : RequestEvent

pub record Request : Type 0 where
  pub lock_counter_max : ℕ
  pub lock_counter : ℕ
  pub bytes_since_syn : ℕ
  pub request_address : ℕ
  pub bus_request : Bool
  pub external_bus_request : Bool
  pub state : RequestState
  pub result : RequestResult
  pub events : List RequestEvent

-- RequestLimits::lock_counter_max and RequestLimits::collision_byte_count.
abbrev pub max_lock_counter : ℕ
max_lock_counter = 25

abbrev pub collision_byte_count : ℕ
collision_byte_count = 1

abbrev pub log : Request → RequestEvent → Request
log r e = record r { events = r.events ++ e ∷ [] }

-- The value of the enumerator.
abbrev pub index : RequestState → ℕ
index RequestState.observe = 0
index RequestState.first = 1
index RequestState.retry = 2
index RequestState.second = 3

mask : List RequestState → ℕ
mask [] = 0
mask (s ∷ states) = bit_or (2 ^ index s) (mask states)

unfoldable pub transition_masks : RequestState → ℕ
unfolding mask
transition_masks RequestState.observe = mask (RequestState.observe ∷ RequestState.first ∷ [])
transition_masks RequestState.first =
    mask (RequestState.observe ∷ RequestState.first ∷ RequestState.retry ∷ [])
transition_masks RequestState.retry = mask (RequestState.observe ∷ RequestState.second ∷ [])
transition_masks RequestState.second = mask (RequestState.observe ∷ [])

-- `next_bit & valid_mask`.
abbrev pub is_valid_transition : RequestState → RequestState → Bool
unfolding transition_masks
is_valid_transition from next = not (bit_and (2 ^ index next) (transition_masks from) == 0)

unfoldable pub transition_to : RequestState → Request → Request
unfolding transition_masks
transition_to next r =
    let next' = if is_valid_transition r.state next then next else RequestState.observe in
    if index next == index r.state
    then r
    else log (record r { state = next' }) (log_request_transition r.state next')

-- `Request(monitor)`, with the counters of the default configuration.
abbrev pub initial : Request
initial = record {
  lock_counter_max = 3;
  lock_counter = 3;
  bytes_since_syn = 0;
  request_address = 0;
  bus_request = false;
  external_bus_request = false;
  state = RequestState.observe;
  result = RequestResult.observe_syn;
  events = [];
}

unfoldable pub reset : Request → Request
unfolding transition_to
reset r = transition_to RequestState.observe (
    log (record r { lock_counter = r.lock_counter_max; bytes_since_syn = 0; bus_request = false })
      (count lock_counter_reset))

unfoldable pub set_lock_counter : ℕ → Request → Request
set_lock_counter lock_counter r =
    let max = min lock_counter max_lock_counter in
    record r {
      lock_counter_max = max;
      lock_counter = if ltb max r.lock_counter then max else r.lock_counter;
    }

abbrev pub is_observe_syn : RequestResult → Bool
is_observe_syn RequestResult.observe_syn = true
is_observe_syn _ = false

unfoldable pub bus_available : Request → Bool
bus_available r = is_observe_syn r.result && r.lock_counter == 0 && not r.bus_request

-- The new state and the value returned.
unfoldable pub request_bus : ℕ → Bool → Request → Request × Bool
unfolding bus_available
request_bus address external r =
    let r' =
      if bus_available r
      then record r {
        request_address = address;
        external_bus_request = external;
        bus_request = true;
      }
      else log r (count bus_request_blocked) in
    (r', r'.bus_request)

unfoldable pub bus_request_completed : Request → Request
unfolding transition_to
bus_request_completed r =
    let r₁ = record r { bus_request = false } in
    let r₂ = if index r₁.state == 0 then transition_to RequestState.first r₁ else r₁ in
    log r₂ (
      if r₂.external_bus_request
      then external_bus_requested_callback
      else handler_bus_requested_callback)

unfoldable pub start_bit : Request → Request
unfolding transition_to
start_bit r =
    let r' = transition_to RequestState.observe (record r { bus_request = false }) in
    log (record r' { result = RequestResult.observe_syn }) start_bit_callback

unfoldable pub observe : ℕ → Request → Request
observe byte r =
    if byte == Symbols.syn
    then record r {
      lock_counter =
          if not (r.bytes_since_syn == collision_byte_count) && ltb 0 r.lock_counter
          then r.lock_counter - 1
          else r.lock_counter;
      result = RequestResult.observe_syn;
      bytes_since_syn = 0;
    }
    else record r {
      result = RequestResult.observe_data;
      bytes_since_syn = (r.bytes_since_syn + 1) % 2 ^ 32;
    }

-- The end of each branch of the arbitration handlers: change state, then set result and counter.
abbrev pub finish : RequestState → RequestResult → ℕ → Request → Request
finish next result bytes r = record (transition_to next r) {
  result = result;
  bytes_since_syn = bytes;
}

abbrev pub won : RequestResult → Request → Request
won result r =
    finish RequestState.observe result 0
      (record (log r (count won_total)) { lock_counter = r.lock_counter_max })

unfoldable pub first : ℕ → Request → Request
unfolding transition_to
first byte r =
    if byte == Symbols.syn
    then finish RequestState.first RequestResult.first_syn 0 (log r (count first_syn))
    else if byte == r.request_address
    then won RequestResult.first_won r
    else if is_master byte
    then (if bit_and byte 0x0f == bit_and r.request_address 0x0f
        then record (finish RequestState.retry RequestResult.first_retry collision_byte_count
            (log r (count collisions))) { bus_request = true }
        else finish RequestState.observe RequestResult.first_lost collision_byte_count
            (log r (count lost_total)))
    else finish RequestState.observe RequestResult.first_error collision_byte_count
        (log r (count arbitration_errors))

unfoldable pub retry : ℕ → Request → Request
unfolding transition_to
retry byte r =
    if byte == Symbols.syn
    then finish RequestState.second RequestResult.retry_syn 0 r
    else finish RequestState.observe RequestResult.retry_error collision_byte_count
        (log r (count arbitration_errors))

unfoldable pub second : ℕ → Request → Request
unfolding transition_to
second byte r =
    if byte == r.request_address
    then won RequestResult.second_won r
    else if is_master byte
    then finish RequestState.observe RequestResult.second_lost collision_byte_count
        (log r (count lost_total))
    else finish RequestState.observe RequestResult.second_error collision_byte_count
        (log r (count arbitration_errors))

-- The dispatch through `state_requests`; the result is the field `result` of the new state.
unfoldable pub run_in : RequestState → ℕ → Request → Request
unfolding observe first retry second
run_in RequestState.observe byte r = observe byte r
run_in RequestState.first byte r = first byte r
run_in RequestState.retry byte r = retry byte r
run_in RequestState.second byte r = second byte r

unfoldable pub run : ℕ → Request → Request
unfolding run_in
run byte r = run_in r.state byte r
