-- ===== src/Client/Flushed.antt =====
-- `flushOutgoingData` of src/ebus/app/client.cpp: the bytes that go out are the oldest, in their order.
use ebus.Base.{
  take-drop, Bool, Bool-cases, List, [], append_assoc, ap, arith, drop, inl, inr, length, ltb, min,
  refl, take, true, ℕ, ◌%◌, ◌++◌, ◌+◌, ◌-◌, ◌==◌, ◌∙◌, ◌∷◌, ◌≡◌, ◌≤◌,
}
use ebus.Client.{Client, WriteAnswer, flush_loop, flush_outgoing_data, stop}
use ebus.Client.Outbound.{bytes_of}
use ebus.Ring.{IsRing, Ring}
use ebus.Ring.Slots.{slots-advance, slots-take, slots_row}
use native.Mathlib.Nat.{mod-lt}

-- What is sent and what is left are together what there was.
abbrev Split : Ring ℕ → Ring ℕ × Bool × List ℕ → Type 0
Split r (r', alive, sent) = IsRing r' × (sent ++ bytes_of r' ≡ bytes_of r)

-- One part, of bytes that lie in a row.
part-Split :
    (n : ℕ) (r : Ring ℕ)
    → IsRing r
    → n ≤ min r.count (length r.buffer - r.head)
    → Split r (
      record r { head = (r.head + n) % length r.buffer; count = r.count - n },
      true,
      take n (drop r.head r.buffer),
    )
part-Split n r v l =
    let advanced =
      slots-advance 0 r.buffer r.head r.count n (omega (arith, v.head_below)) (omega arith) in
    let row = slots_row 0 r.buffer r.head n (omega (arith, v.head_below)) in
    let taken = slots-take 0 r.buffer r.head r.count n (omega arith) in
    (
      record {
        head_below = mod-lt (r.head + n) (omega (arith, v.head_below));
        count_le = omega (arith, v.count_le);
      },
      rw (advanced, ← row, taken) (take-drop n (bytes_of r)),
    )

flush_loop-Split :
    (answers : List WriteAnswer) (r : Ring ℕ) → IsRing r → Split r (flush_loop answers r)
unfolding flush_loop
flush_loop-Split [] r v = (v, refl)
flush_loop-Split (WriteAnswer.would_block ∷ answers) r v = (v, refl)
flush_loop-Split (WriteAnswer.failed ∷ answers) r v = (v, refl)
flush_loop-Split (WriteAnswer.wrote answer ∷ answers) r v =
    let part_len = min r.count (length r.buffer - r.head) in
    let n = min answer part_len in
    let (w, part) = part-Split n r v (omega arith) in
    let r' : Ring ℕ = record r { head = (r.head + n) % length r.buffer; count = r.count - n } in
    let (w', later) = flush_loop-Split answers r' w in
    elim (Bool-cases (r.count == 0)) [
      | inl e ↦ rw e (v, refl)
      | inr e ↦ elim (Bool-cases (n == 0)) [
        | inl z ↦ rw (e, z) (v, refl)
        | inr z ↦ elim (Bool-cases (ltb n part_len)) [
          | inl short ↦ rw (e, z, short) (w, part)
          | inr whole ↦
              rw (e, z, whole)
                (
                  w',
                  append_assoc (take n (drop r.head r.buffer)) _ _
                      ∙ ap (λ ys. take n (drop r.head r.buffer) ++ ys) later
                      ∙ part,
                )
        ]
      ]
    ]

-- Whatever the socket answers, what it has taken and what is left in the buffer are together the bytes
-- that were there, in their order; the result tells whether the client is still connected.
pub flush_outgoing_data-splits :
    (answers : List WriteAnswer) (c : Client)
    → IsRing c.outbound
    → let (c', alive, sent) = flush_outgoing_data answers c in
      IsRing c'.outbound
      × (sent ++ bytes_of c'.outbound ≡ bytes_of c.outbound)
      × (c'.connected ≡ alive)
unfolding flush_outgoing_data stop
flush_outgoing_data-splits answers c v =
    let (w, split) = flush_loop-Split answers c.outbound v in
    elim (Bool-cases c.connected) [
      | inr off ↦ rw off (v, refl, refl)
      | inl on ↦ elim (Bool-cases (flush_loop answers c.outbound).1) [
        | inl alive ↦ simp (on, alive) (w, split, refl)
        | inr dead ↦ simp (on, dead) (w, split, refl)
      ]
    ]
