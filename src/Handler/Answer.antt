-- ===== src/Handler/Answer.antt =====
-- What the state that receives a master part (src/ebus/core/handler.cpp) does with one byte: where it
-- goes, and when it answers.
use ebus.Base.{Bool-cases, List, arith, inl, inr, subst, sym, true, ℕ, ◌≡◌, ◌⊎◌}
use ebus.Types.{HandlerState, is_ok}
use ebus.Sequence.{Sequence, byte_at, push_back, reduce}
use ebus.Handler.{
  Handler, call_active_reset, call_on_error, call_on_telegram, call_passive_reset, call_write, log,
  transition_to,
}
use ebus.Handler.Matrix.{is_valid_transition}
use ebus.Handler.Passive.{
  accept_master, accept_as_master, accept_as_slave, accept_broadcast, check_active_buffers,
  check_passive_buffers, receive_syn, refuse_as_target, refuse_master, refuse_passive,
  refuse_response, send_response, complete_master, passive_receive_master, reject_byte,
  store_master_byte,
}
use ebus.Handler.Successors.{at_state, follows}
use ebus.Telegram.{create_master, create_master_reduced}

abbrev prm : HandlerState
prm = HandlerState.passive_receive_master

-- The new state follows, and a write is asked for only by the device at `zz`.
pub record Answer (zz : ℕ) (before after : Handler) : Type 0 where
  pub follows_on : follows HandlerState.passive_receive_master after.state ≡ true
  pub for_us :
      (after.pending_write ≡ before.pending_write)
      ⊎ ((zz ≡ before.source_address) ⊎ (zz ≡ before.target_address))

refuse_master-Answer :
    (h : Handler) → Answer (byte_at h.passive_master 1) h (refuse_master (at_state prm h))
unfolding refuse_master refuse_as_target refuse_passive transition_to call_on_error call_on_telegram
    call_passive_reset call_active_reset call_write log is_valid_transition
refuse_master-Answer h = record { follows_on = ground arith; for_us = ground arith }

receive_syn-Answer : (zz : ℕ) (h : Handler) → Answer zz h (receive_syn (at_state prm h))
unfolding receive_syn check_passive_buffers check_active_buffers transition_to call_on_error
    call_on_telegram call_passive_reset call_active_reset call_write log is_valid_transition
receive_syn-Answer zz h = record { follows_on = ground arith; for_us = inl (ground arith) }

module _ (respond : List ℕ → Sequence → Sequence) where
  accept_as_slave-state :
      (h : Handler) → follows prm (accept_as_slave respond (at_state prm h)).state ≡ true
  unfolding accept_as_slave send_response refuse_response transition_to call_on_error
      call_on_telegram call_passive_reset call_active_reset call_write log is_valid_transition
  accept_as_slave-state h = ground arith

  accept_master-Answer :
      (h : Handler) → Answer (byte_at h.passive_master 1) h (accept_master respond (at_state prm h))
  unfolding accept_master accept_broadcast accept_as_master transition_to call_on_error
      call_on_telegram call_passive_reset call_active_reset call_write log is_valid_transition
  accept_master-Answer h = record {
    follows_on = ground (arith, accept_as_slave-state h);
    for_us = ground arith;
  }

  complete_master-Answer :
      (h : Handler)
      → Answer (byte_at (reduce h.passive_master) 1) h (complete_master respond (at_state prm h))
  unfolding complete_master create_master
  complete_master-Answer h =
      let t = create_master_reduced (reduce h.passive_master) h.passive_telegram in
      let h' = record h { passive_telegram = t; passive_master = reduce h.passive_master } in
      let yes' = accept_master-Answer h' in
      let no' = refuse_master-Answer h' in
      elim (Bool-cases (is_ok t.master_state)) [
        | inl e ↦ rw e (record { follows_on = yes'.follows_on; for_us = yes'.for_us })
        | inr e ↦ rw e (record { follows_on = no'.follows_on; for_us = no'.for_us })
      ]

  received-Answer :
      (byte : ℕ) (h : Handler)
      → Answer
          (byte_at (reduce (push_back h.passive_master byte true)) 1)
          h
          (passive_receive_master respond byte (at_state prm h))
  unfolding passive_receive_master reject_byte call_passive_reset log store_master_byte
  received-Answer byte h =
      let zz = byte_at (reduce (push_back h.passive_master byte true)) 1 in
      let syn' = receive_syn-Answer zz h in
      let done = complete_master-Answer (store_master_byte byte h) in
      record {
        follows_on = ground (arith, syn'.follows_on, done.follows_on);
        for_us = ground (arith, syn'.for_us, done.for_us);
      }

  -- In the state that receives a master part, the next state is one of its successors, and the device
  -- asks for a write only where the second logical byte received is its own master or slave address.
  pub passive_receive_master-Answer :
      (byte : ℕ) (h : Handler)
      → h.state ≡ HandlerState.passive_receive_master
      → Answer
          (byte_at (reduce (push_back h.passive_master byte true)) 1)
          h
          (passive_receive_master respond byte h)
  passive_receive_master-Answer byte h e =
      let same : at_state prm h ≡ h = λ i. record h { state = sym e i } in
      subst
        (λ k.
          Answer (byte_at (reduce (push_back h.passive_master byte true)) 1) h
            (passive_receive_master respond byte k))
        same (received-Answer byte h)
