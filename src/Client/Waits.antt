-- ===== src/Client/Waits.antt =====
-- src/ebus/app/client.cpp: how many bytes a regular client may have under way.
use ebus.Base.{
  Bool-cases, List, [], append-nil, append_assoc, arith, if◌then◌else◌, inl, inr, leb, length,
  length-append, ltb, none, some, true, ◌++◌, ◌+◌, ◌∷◌, ◌≡◌, ◌≤◌, ℕ,
}
use ebus.Client.{Client}
use ebus.Client.Inbound.{handle_regular, push_all, push_inbound, queue_capacity}

push_all_lem :
    (bytes : List ℕ) (c : Client)
    → length c.inbound ≤ queue_capacity
    → push_all bytes c ≡ (
        if ltb queue_capacity (length c.inbound + length bytes)
        then none
        else some (record c { inbound = c.inbound ++ bytes }))
unfolding push_all push_inbound
push_all_lem [] c l = rw append-nil (ground arith)
push_all_lem (b ∷ bytes) c l = elim (Bool-cases (leb queue_capacity (length c.inbound))) [
  | inl e ↦ rw (e, push_all) (ground arith)
  | inr e ↦
      let more = length-append c.inbound (b ∷ []) in
      let c' = record c { inbound = c.inbound ++ b ∷ [] } in
      let later = push_all_lem bytes c' (ground (arith, more)) in
      let same = append_assoc c.inbound (b ∷ []) bytes in
      rw (e, push_all) (ground (arith, later, more, same))
]

-- A connected regular client that sends bytes has them all queued behind those under way where the
-- queue has room for them; where it has not, a push finds the queue full.
handle_regular_waits :
    (bytes : List ℕ) (c : Client)
    → c.connected ≡ true
    → c.write_capable ≡ true
    → length c.inbound ≤ queue_capacity
    → handle_regular bytes c ≡ (
        if ltb queue_capacity (length c.inbound + length bytes)
        then none
        else some (record c { inbound = c.inbound ++ bytes }))
unfolding handle_regular
handle_regular_waits [] c on capable l = rw append-nil (ground arith)
handle_regular_waits (b ∷ bytes) c on capable l = ground (arith, push_all_lem (b ∷ bytes) c l)
