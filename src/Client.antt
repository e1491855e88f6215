-- ===== src/Client.antt =====
-- src/ebus/app/client.hpp and client.cpp: a network client of one of the three kinds. The socket is what
-- its calls return: whether it is valid, and the answers to `write`. The outbound buffer is a ring, with
-- `max_buffer_size_` slots. The inbound queue (src/ebus/platform/posix/queue_posix.hpp) is the list of
-- its elements; a push on a full one waits for a pop. Counts are 64 bits wide.
pub mod Inbound
pub mod Bridge
pub mod Outbound
pub mod Flushed
pub mod Waits
use ebus.Base.{
  Bool, List, Option, [], drop, false, if◌then◌else◌, leb, length, ltb, min, none, not, replicate,
  set, some, suc, take, true, zero, ℕ, ◌%◌, ◌++◌, ◌+◌, ◌-◌, ◌==◌, ◌^◌, ◌∷◌, ◌||◌, ◌&&◌,
}
use ebus.Enhanced
use ebus.Enhanced.{Response, response_value}
use ebus.Ring.{Ring}

pub data ClientType : Type 0 where
  read_only regular enhanced : ClientType

pub record Client : Type 0 where
  pub kind : ClientType
  pub connected : Bool
  pub write_capable : Bool
  pub outbound : Ring ℕ
  pub inbound : List ℕ
  pub last_sent_byte : ℕ
  pub incoming : List ℕ

abbrev pub is_enhanced : ClientType → Bool
is_enhanced ClientType.enhanced = true
is_enhanced _ = false

abbrev pub is_read_only : ClientType → Bool
is_read_only ClientType.read_only = true
is_read_only _ = false

-- `createClient`, over a valid socket.
abbrev pub create_client : ClientType → ℕ → Client
create_client kind max_buffer = record {
  kind = kind;
  connected = true;
  write_capable = if is_read_only kind then false else true;
  outbound = record { buffer = replicate max_buffer 0; head = 0; count = 0 };
  inbound = [];
  last_sent_byte = 0;
  incoming = [];
}

unfoldable pub stop : Client → Client
stop c = record c { connected = false }

abbrev pub word : ℕ
word = 2 ^ 64

abbrev pub max_buffer_size : Client → ℕ
max_buffer_size c = length (c.outbound).buffer

-- What `write` answers; a number is at most that of the bytes it is given.
pub data WriteAnswer : Type 0 where
  wrote : ℕ → WriteAnswer
  would_block failed : WriteAnswer

-- The loop of `flushLocked`, over the socket's answers; behind their end the socket would block. The
-- result has the bytes that the socket has taken.
unfoldable pub flush_loop : List WriteAnswer → Ring ℕ → Ring ℕ × Bool × List ℕ
flush_loop [] r = (r, true, [])
flush_loop (WriteAnswer.would_block ∷ answers) r = (r, true, [])
flush_loop (WriteAnswer.failed ∷ answers) r = (r, r.count == 0, [])
flush_loop (WriteAnswer.wrote answer ∷ answers) r =
    let part_len = min r.count (length r.buffer - r.head) in
    let n = min answer part_len in
    let r' : Ring ℕ = record r { head = (r.head + n) % length r.buffer; count = r.count - n } in
    let sent = take n (drop r.head r.buffer) in
    let rest = flush_loop answers r' in
    if r.count == 0
    then (r, true, [])
    else if n == 0
    then (r, true, [])
    else if ltb n part_len
    then (r', true, sent)
    else (rest.0, rest.1, sent ++ rest.2)

-- A write error closes the socket.
unfoldable pub flush_outgoing_data : List WriteAnswer → Client → Client × Bool × List ℕ
unfolding flush_loop stop
flush_outgoing_data answers c =
    let (r, alive, sent) = flush_loop answers c.outbound in
    let c' = record c { outbound = r } in
    if not c.connected then (c, false, []) else ((if alive then c' else stop c'), alive, sent)

-- The store of one byte behind the last.
unfoldable pub store_byte : ℕ → Ring ℕ → Ring ℕ
store_byte b r = record r {
  buffer = set r.buffer ((r.head + r.count) % length r.buffer) b;
  count = (r.count + 1) % word;
}

unfoldable pub store_bytes : List ℕ → Ring ℕ → Ring ℕ
unfolding store_byte
store_bytes [] r = r
store_bytes (b ∷ bs) r = store_bytes bs (store_byte b r)

-- The oldest bytes go.
unfoldable pub drop_oldest : ℕ → Ring ℕ → Ring ℕ
drop_oldest n r = record r {
  head = (r.head + n) % length r.buffer;
  count = (r.count + word - n) % word;
}

-- `enqueueOutgoingData` of a read-only and of a regular client.
unfoldable pub enqueue_plain : List ℕ → Ring ℕ → Ring ℕ
unfolding store_bytes drop_oldest
enqueue_plain bytes r =
    let needed = r.count + length bytes in
    store_bytes bytes
      (if ltb (length r.buffer) needed then drop_oldest (needed - length r.buffer) r else r)

-- `pushByte`
unfoldable pub push_byte : ℕ → Ring ℕ → Ring ℕ
unfolding store_byte drop_oldest
push_byte b r = store_byte b (if leb (length r.buffer) r.count then drop_oldest 1 r else r)

-- The loop that makes room for two bytes; two rounds are enough.
unfoldable pub make_room : ℕ → Ring ℕ → Ring ℕ
unfolding drop_oldest
make_room zero r = r
make_room (suc fuel) r =
    let rest = make_room fuel (drop_oldest 1 r) in
    if ltb (length r.buffer) ((r.count + 2) % word) then rest else r

-- The command and the value of what a client is sent: one byte is a byte received.
abbrev pub command_of : List ℕ → ℕ × ℕ
command_of [] = (0, 0)
command_of (a ∷ []) = (response_value Response.received, a)
command_of (a ∷ b ∷ bs) = (a, b)

abbrev pub data_threshold : ℕ
data_threshold = 0x80

unfoldable pub packed : ℕ × ℕ → List ℕ
packed (cmd, val) =
    let out = Enhanced.encode cmd val in
    if cmd == response_value Response.received && ltb val data_threshold
    then val ∷ []
    else out.0 ∷ out.1 ∷ []

unfoldable pub push_bytes : List ℕ → Ring ℕ → Ring ℕ
unfolding push_byte
push_bytes [] r = r
push_bytes (b ∷ bs) r = push_bytes bs (push_byte b r)

-- `enqueueOutgoingData` of an enhanced client.
unfoldable pub enqueue_enhanced : List ℕ → Ring ℕ → Ring ℕ
unfolding make_room packed push_bytes
enqueue_enhanced bytes r = push_bytes (packed (command_of bytes)) (make_room 2 r)

unfoldable pub enqueue_outgoing_data : List ℕ → Client → Client
unfolding enqueue_plain enqueue_enhanced
enqueue_outgoing_data bytes c = if not c.connected || length bytes == 0 then c else record c {
  outbound =
      if is_enhanced c.kind
      then enqueue_enhanced bytes c.outbound
      else enqueue_plain bytes c.outbound;
}

unfoldable pub create_enhanced_response : Response → ℕ → Client → Client
unfolding enqueue_outgoing_data
create_enhanced_response res val c = enqueue_outgoing_data (response_value res ∷ val ∷ []) c
