-- ===== src/Telegram/Frame.antt =====
-- `frameMaster` and `frameSlave` of src/ebus/utils/utils.cpp, and reading back what they frame.
use ebus.Base.{List, [], ap, false, inr, refl, true, ℕ, ◌++◌, ◌∷◌, ◌≡◌}
use ebus.Types.{SequenceState}
use ebus.Sequence.{Sequence, append, crc, empty, extend, push_back, reduce}
use ebus.Telegram.{Telegram, create_master, create_slave, of_bytes}
use ebus.Telegram.Slave.{IsSlavePart, create_slave_complete}
use ebus.Telegram.Create.{IsMasterPart, create_master_complete}
use ebus.Sequence.Spec.{is_wire}
use ebus.Sequence.RoundTrip.{reduce-extend}
use ebus.Sequence.Reduce.{sequence-reduce}

unfoldable pub frame_master : ℕ → List ℕ → Sequence
frame_master source payload =
    let msg = append (push_back empty source false) (of_bytes payload) in
    extend (push_back msg (crc msg) false)

unfoldable pub frame_slave : List ℕ → Sequence
frame_slave payload =
    let msg = append empty (of_bytes payload) in extend (push_back msg (crc msg) false)

append-of_bytes : (xs ys : List ℕ) → append (of_bytes xs) (of_bytes ys) ≡ of_bytes (xs ++ ys)
unfolding append
append-of_bytes xs ys = ap (λ zs. of_bytes (xs ++ zs)) (sequence-reduce (of_bytes ys))

frame_master_lem :
    (source : ℕ) (payload : List ℕ)
    → frame_master source payload
      ≡ extend (of_bytes ((source ∷ payload) ++ crc (of_bytes (source ∷ payload)) ∷ []))
unfolding frame_master push_back
frame_master_lem source payload = rw (append-of_bytes (source ∷ []) payload) refl

frame_slave_lem :
    (payload : List ℕ)
    → frame_slave payload ≡ extend (of_bytes (payload ++ crc (of_bytes payload) ∷ []))
unfolding frame_slave push_back
frame_slave_lem payload = rw (append-of_bytes [] payload) refl

-- A framed master telegram is read back as its source and payload, where these are a well-formed
-- master part, and on the wire it holds no SYN.
pub create_master-frame_master :
    (source : ℕ) (payload : List ℕ) (t : Telegram)
    → IsMasterPart (source ∷ payload)
    → ((create_master (frame_master source payload) t).0.master_state ≡ SequenceState.seq_ok)
      × ((create_master (frame_master source payload) t).0.master ≡ of_bytes (source ∷ payload))
      × (is_wire (frame_master source payload).sequence ≡ true)
create_master-frame_master source payload t p =
    let m = source ∷ payload in
    let msg = of_bytes (m ++ crc (of_bytes m) ∷ []) in
    let there = reduce-extend msg refl in
    let framed = frame_master_lem source payload in
    let back : (reduce (frame_master source payload)).sequence ≡ m ++ crc (of_bytes m) ∷ [] =
      rw (framed, there.0) refl in
    let done = create_master_complete (frame_master source payload) t m p (inr back) in
    (done.0, done.1, rw framed there.1)

-- A framed slave response is read back as its payload, where that is a well-formed slave part, and
-- on the wire it holds no SYN.
pub create_slave-frame_slave :
    (payload : List ℕ) (t : Telegram)
    → IsSlavePart payload
    → ((create_slave (frame_slave payload) t).0.slave_state ≡ SequenceState.seq_ok)
      × ((create_slave (frame_slave payload) t).0.slave ≡ of_bytes payload)
      × (is_wire (frame_slave payload).sequence ≡ true)
create_slave-frame_slave payload t p =
    let there = reduce-extend (of_bytes (payload ++ crc (of_bytes payload) ∷ [])) refl in
    let framed = frame_slave_lem payload in
    let back : (reduce (frame_slave payload)).sequence ≡ payload ++ crc (of_bytes payload) ∷ [] =
      rw (framed, there.0) refl in
    let done = create_slave_complete (frame_slave payload) t payload p back in
    (done.0, done.1, rw framed there.1)
