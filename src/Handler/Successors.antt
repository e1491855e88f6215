-- ===== src/Handler/Successors.antt =====
-- Where one byte may take the protocol machine of src/ebus/core/handler.cpp, and in which states it
-- may be answered.
pub mod Active
use ebus.Base.{
  Bool, List, [], any, arith, false, if◌then◌else◌, leb, ltb, refl, true, ℕ, ◌&&◌, ◌+◌, ◌==◌, ◌∷◌,
  ◌≡◌,
}
use ebus.Handler.Alarms.{alarms, alarms-append, nothing_to_send}
use ebus.Handler.Matrix.{index, is_valid_transition}
use ebus.Types.{HandlerState}
use ebus.Sequence.{size}
use ebus.Telegram.{max_data_bytes}
use ebus.Handler.{
  Handler, call_active_reset, call_on_error, call_on_telegram, call_passive_reset, call_write, log,
  transition_to,
}
use ebus.Handler.Reactive.{
  abandon_passive, conclude_passive, passive_receive_master_acknowledge, complete_slave,
  passive_receive_slave, passive_receive_slave_acknowledge, reactive_receive_slave_acknowledge,
  reactive_send_master_negative_acknowledge, reactive_send_master_positive_acknowledge,
  reactive_send_slave, store_slave_byte,
}
use ebus.Handler.Passive.{reject_byte}

-- The states that the protocol lets follow on one byte, the same state included where bytes are awaited.
abbrev pub successors : HandlerState → List HandlerState
successors HandlerState.passive_receive_master =
    HandlerState.passive_receive_master ∷ HandlerState.passive_receive_master_acknowledge
    ∷ HandlerState.reactive_send_master_positive_acknowledge
    ∷ HandlerState.reactive_send_master_negative_acknowledge ∷ HandlerState.release_bus ∷ []
successors HandlerState.passive_receive_master_acknowledge =
    HandlerState.passive_receive_master ∷ HandlerState.passive_receive_slave ∷ []
successors HandlerState.passive_receive_slave =
    HandlerState.passive_receive_slave ∷ HandlerState.passive_receive_slave_acknowledge ∷ []
successors HandlerState.passive_receive_slave_acknowledge =
    HandlerState.passive_receive_master ∷ HandlerState.passive_receive_slave ∷ []
successors HandlerState.reactive_send_master_positive_acknowledge =
    HandlerState.passive_receive_master ∷ HandlerState.reactive_send_slave ∷ []
successors HandlerState.reactive_send_master_negative_acknowledge =
    HandlerState.passive_receive_master ∷ []
successors HandlerState.reactive_send_slave =
    HandlerState.reactive_send_slave ∷ HandlerState.reactive_receive_slave_acknowledge ∷ []
successors HandlerState.reactive_receive_slave_acknowledge =
    HandlerState.passive_receive_master ∷ HandlerState.reactive_send_slave ∷ []
successors HandlerState.request_bus =
    HandlerState.request_bus ∷ HandlerState.active_send_master ∷ HandlerState.release_bus
    ∷ HandlerState.passive_receive_master ∷ []
successors HandlerState.active_send_master =
    HandlerState.active_send_master ∷ HandlerState.active_receive_master_acknowledge
    ∷ HandlerState.release_bus ∷ HandlerState.passive_receive_master ∷ []
successors HandlerState.active_receive_master_acknowledge =
    HandlerState.active_send_master ∷ HandlerState.active_receive_slave ∷ HandlerState.release_bus
    ∷ []
successors HandlerState.active_receive_slave =
    HandlerState.active_receive_slave ∷ HandlerState.active_send_slave_positive_acknowledge
    ∷ HandlerState.active_send_slave_negative_acknowledge ∷ []
successors HandlerState.active_send_slave_positive_acknowledge = HandlerState.release_bus ∷ []
successors HandlerState.active_send_slave_negative_acknowledge =
    HandlerState.active_receive_slave ∷ HandlerState.release_bus ∷ []
successors HandlerState.release_bus = HandlerState.passive_receive_master ∷ []

abbrev pub follows : HandlerState → HandlerState → Bool
follows s t = any (λ u. index u == index t) (successors s)

-- In these states the device only listens.
abbrev pub listens : HandlerState → Bool
listens HandlerState.passive_receive_master_acknowledge = true
listens HandlerState.passive_receive_slave = true
listens HandlerState.passive_receive_slave_acknowledge = true
listens HandlerState.reactive_send_master_negative_acknowledge = true
listens HandlerState.release_bus = true
listens _ = false

abbrev pub at_state : HandlerState → Handler → Handler
at_state s h = record h { state = s }

-- The new state follows the old one, a state that listens asks for no write, and no byte is written and no
-- illegal transition reported but where there is nothing to send.
pub record Conduct (s : HandlerState) (before after : Handler) : Type 0 where
  pub follows_on : follows s after.state ≡ true
  pub stays_silent : listens s ≡ true → after.pending_write ≡ before.pending_write
  pub calm :
      alarms after.events ≡ alarms before.events + (if nothing_to_send s before then 1 else 0)

pub passive_receive_master_acknowledge-Conduct :
    (byte : ℕ) (h : Handler)
    → let s = HandlerState.passive_receive_master_acknowledge in
      Conduct s h (passive_receive_master_acknowledge byte (at_state s h))
unfolding passive_receive_master_acknowledge conclude_passive abandon_passive transition_to
    call_on_error call_on_telegram call_passive_reset call_active_reset call_write log
    is_valid_transition
passive_receive_master_acknowledge-Conduct byte h = record {
  follows_on = ground arith;
  stays_silent = λ e. ground arith;
  calm = grind (arith, alarms-append);
}

pub Conduct-if :
    {s : HandlerState}
    → {h : Handler} → (b : Bool) → (x y : Handler) → Conduct s h x
    → Conduct s h y
    → Conduct s h (if b then x else y)
Conduct-if true x y p q = p
Conduct-if false x y p q = q

complete_slave-Conduct :
    (h : Handler)
    → let s = HandlerState.passive_receive_slave in Conduct s h (complete_slave (at_state s h))
unfolding complete_slave transition_to call_on_error log is_valid_transition
complete_slave-Conduct h = record {
  follows_on = ground arith;
  stays_silent = λ e. ground arith;
  calm = grind (arith, alarms-append);
}

pub passive_receive_slave-Conduct :
    (byte : ℕ) (h : Handler)
    → let s = HandlerState.passive_receive_slave in
      Conduct s h (passive_receive_slave byte (at_state s h))
unfolding passive_receive_slave store_slave_byte reject_byte call_passive_reset log
passive_receive_slave-Conduct byte h =
    let k = at_state HandlerState.passive_receive_slave h in
    let k' = store_slave_byte byte k in
    let whole = leb (1 + k'.passive_slave_dbx + 1) (size k'.passive_slave) in
    let done = complete_slave-Conduct (store_slave_byte byte h) in
    Conduct-if (size k.passive_slave == 0 && ltb max_data_bytes byte) (reject_byte k)
      (if whole then complete_slave k' else k')
      (record { follows_on = refl; stays_silent = λ e. refl; calm = grind (arith, alarms-append) })
      (Conduct-if whole (complete_slave k') k'
        (record {
          follows_on = done.follows_on;
          stays_silent = done.stays_silent;
          calm = done.calm;
        })
        (record {
          follows_on = refl;
          stays_silent = λ e. refl;
          calm = grind (arith, alarms-append);
        }))

pub passive_receive_slave_acknowledge-Conduct :
    (byte : ℕ) (h : Handler)
    → let s = HandlerState.passive_receive_slave_acknowledge in
      Conduct s h (passive_receive_slave_acknowledge byte (at_state s h))
unfolding passive_receive_slave_acknowledge conclude_passive abandon_passive transition_to
    call_on_error call_on_telegram call_passive_reset call_active_reset call_write log
    is_valid_transition
passive_receive_slave_acknowledge-Conduct byte h = record {
  follows_on = ground arith;
  stays_silent = λ e. ground arith;
  calm = grind (arith, alarms-append);
}

pub reactive_send_master_positive_acknowledge-Conduct :
    (byte : ℕ) (h : Handler)
    → let s = HandlerState.reactive_send_master_positive_acknowledge in
      Conduct s h (reactive_send_master_positive_acknowledge byte (at_state s h))
unfolding reactive_send_master_positive_acknowledge conclude_passive transition_to call_on_error
    call_on_telegram call_passive_reset call_active_reset call_write log is_valid_transition
reactive_send_master_positive_acknowledge-Conduct byte h = record {
  follows_on = ground arith;
  stays_silent = λ e. ground arith;
  calm = grind (arith, alarms-append);
}

pub reactive_send_master_negative_acknowledge-Conduct :
    (byte : ℕ) (h : Handler)
    → let s = HandlerState.reactive_send_master_negative_acknowledge in
      Conduct s h (reactive_send_master_negative_acknowledge byte (at_state s h))
unfolding reactive_send_master_negative_acknowledge transition_to call_on_error call_on_telegram
    call_passive_reset call_active_reset call_write log is_valid_transition
reactive_send_master_negative_acknowledge-Conduct byte h = record {
  follows_on = ground arith;
  stays_silent = λ e. ground arith;
  calm = grind (arith, alarms-append);
}

pub reactive_send_slave-Conduct :
    (byte : ℕ) (h : Handler)
    → let s = HandlerState.reactive_send_slave in
      Conduct s h (reactive_send_slave byte (at_state s h))
unfolding reactive_send_slave transition_to call_on_error call_on_telegram call_passive_reset
    call_active_reset call_write log is_valid_transition
reactive_send_slave-Conduct byte h = record {
  follows_on = ground arith;
  stays_silent = λ e. ground arith;
  calm = grind (arith, alarms-append);
}

pub reactive_receive_slave_acknowledge-Conduct :
    (byte : ℕ) (h : Handler)
    → let s = HandlerState.reactive_receive_slave_acknowledge in
      Conduct s h (reactive_receive_slave_acknowledge byte (at_state s h))
unfolding reactive_receive_slave_acknowledge conclude_passive abandon_passive transition_to
    call_on_error call_on_telegram call_passive_reset call_active_reset call_write log
    is_valid_transition
reactive_receive_slave_acknowledge-Conduct byte h = record {
  follows_on = ground arith;
  stays_silent = λ e. ground arith;
  calm = grind (arith, alarms-append);
}
