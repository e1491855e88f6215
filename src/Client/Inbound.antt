-- ===== src/Client/Inbound.antt =====
-- src/ebus/app/client.cpp: the bytes that a client sends. A push that finds the queue full has to wait for
-- another thread; the model does not follow the call beyond that, and its result is `none`.
use ebus.Base.{
  Bool, List, Option, [], false, get_or, if◌then◌else◌, leb, length, ltb, none, not, some, true, ℕ,
  ◌++◌, ◌==◌, ◌∷◌, ◌||◌,
}
use ebus.Client.{Client, ClientType, create_enhanced_response, data_threshold, stop}
use ebus.Enhanced
use ebus.Enhanced.{Response}
use ebus.Request
use ebus.Request.{Request}
use ebus.Symbols

-- The default capacity of the queue, which the clients' queues have.
abbrev pub queue_capacity : ℕ
queue_capacity = 32

unfoldable pub push_inbound : ℕ → Client → Option Client
push_inbound b c =
    if leb queue_capacity (length c.inbound)
    then none
    else some (record c { inbound = c.inbound ++ b ∷ [] })

unfoldable pub push_all : List ℕ → Client → Option Client
unfolding push_inbound
push_all [] c = some c
push_all (b ∷ bs) c = elim (push_inbound b c) [ none ↦ none | some c' ↦ push_all bs c' ]

-- `RegularClient::handleIncomingStream`
unfoldable pub handle_regular : List ℕ → Client → Option Client
unfolding push_all
handle_regular bytes c =
    if not c.connected || (not c.write_capable || length bytes == 0)
    then some c
    else push_all bytes c

-- An enhanced client's bytes: the client, the request machine it may reset, and the answers that it
-- owes; `framing_error` ends the loop.
pub record Stream : Type 0 where
  pub client : Client
  pub request : Request
  pub need_reset_response : Bool
  pub need_info_response : Bool
  pub framing_error : Bool

unfoldable pub push_stream : ℕ → Client → Stream → Option Stream
unfolding push_inbound
push_stream b c s =
    if not c.write_capable
    then some (record s { client = c })
    else elim (push_inbound b c) [ none ↦ none | some c' ↦ some (record s { client = c' }) ]

-- The same with `last_sent_byte_ = data_val`.
unfoldable pub send_stream : ℕ → Client → Stream → Option Stream
unfolding push_inbound
send_stream b c s =
    if not c.write_capable then some (record s { client = c }) else elim (push_inbound b c) [
      | none ↦ none
      | some c' ↦ some (record s { client = record c' { last_sent_byte = b } })
    ]

-- The switch over the command; `c` is the client with its accumulated bytes cleared.
unfoldable pub run_command : ℕ → ℕ → Client → Stream → Option Stream
unfolding send_stream
run_command cmd val c s =
    if cmd == 0
    then some (record s { client = c; need_reset_response = true })
    else if cmd == 1
    then send_stream val c s
    else if cmd == 2
    then (if val == Symbols.syn
        then some (record s { client = c; request = Request.reset s.request })
        else send_stream val c s)
    else if cmd == 3
    then some (record s { client = c; need_info_response = true })
    else some (record s { client = c })

unfoldable pub take_sequence : ℕ → ℕ → Client → Stream → Option Stream
unfolding run_command
take_sequence b1 b2 c s =
    let (cmd, val) = Enhanced.decode (b1, b2) in
    if not (Enhanced.is_valid_sequence b1 b2)
    then some (record s { client = c; framing_error = true })
    else run_command cmd val c s

unfoldable pub take_byte : ℕ → Stream → Option Stream
unfolding push_stream take_sequence
take_byte b s =
    let incoming = (s.client).incoming ++ b ∷ [] in
    let b1 = get_or incoming 0 0 in
    let cleared = record (s.client) { incoming = [] } in
    if ltb b1 data_threshold
    then push_stream b1 cleared s
    else if ltb (length incoming) 2
    then some (record s { client = record (s.client) { incoming = incoming } })
    else take_sequence b1 (get_or incoming 1 0) cleared s

unfoldable pub take_bytes : List ℕ → Stream → Option Stream
unfolding take_byte
take_bytes [] s = some s
take_bytes (b ∷ bs) s = elim (take_byte b s) [
  | none ↦ none
  | some s' ↦ let rest = take_bytes bs s' in if s'.framing_error then some s' else rest
]

unfoldable pub info_responses : List ℕ → Client → Client
unfolding create_enhanced_response
info_responses [] c = c
info_responses (b ∷ bs) c = info_responses bs (create_enhanced_response Response.info b c)

-- The bytes of the answer to an info command.
abbrev pub info_bytes : List ℕ
info_bytes = 0x08 ∷ 0x11 ∷ 0x07 ∷ 0x9a ∷ 0xeb ∷ 0x0b ∷ 0x21 ∷ 0xc4 ∷ 0x31 ∷ []

-- What follows the loop; the error code of a framing error is 0.
unfoldable pub finish_stream : Stream → Client × Request
unfolding info_responses create_enhanced_response stop
finish_stream s =
    let reset' =
      if s.need_reset_response
      then create_enhanced_response Response.resetted 0x00 s.client
      else s.client in
    let informed = if s.need_info_response then info_responses info_bytes reset' else reset' in
    if s.framing_error
    then (stop (create_enhanced_response Response.error_host 0 s.client), s.request)
    else (informed, s.request)

-- `EnhancedClient::handleIncomingStream`
unfoldable pub handle_enhanced : List ℕ → Client → Request → Option (Client × Request)
unfolding take_bytes finish_stream
handle_enhanced bytes c r =
    let s : Stream = record {
      client = c;
      request = r;
      need_reset_response = false;
      need_info_response = false;
      framing_error = false;
    } in
    if not c.connected || length bytes == 0
    then some (c, r)
    else elim (take_bytes bytes s) [ none ↦ none | some s' ↦ some (finish_stream s') ]

unfoldable pub handle_incoming_stream : List ℕ → Client → Request → Option (Client × Request)
unfolding handle_regular handle_enhanced
handle_incoming_stream bytes c r = elim c.kind [
  | ClientType.read_only ↦ some (c, r)
  | ClientType.regular ↦ elim (handle_regular bytes c) [ none ↦ none | some c' ↦ some (c', r) ]
  | ClientType.enhanced ↦ handle_enhanced bytes c r
]

unfoldable pub pop_pending_incoming_data : Client → Client × Option ℕ
pop_pending_incoming_data c = elim c.inbound [
  | [] ↦ (c, none)
  | b ∷ bs ↦ (record c { inbound = bs; last_sent_byte = b }, some b)
]

abbrev pub has_pending_incoming_data : Client → Bool
has_pending_incoming_data c = not (length c.inbound == 0)

-- `EnhancedClient::onSessionStart`; that of the other clients does nothing.
unfoldable pub on_session_start : Client → Client
on_session_start c = elim c.kind [ ClientType.enhanced ↦ record c { incoming = [] } | _ ↦ c ]
