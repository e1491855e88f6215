-- ===== src/Handler/Conduct.antt =====
-- `Handler::run` of src/ebus/core/handler.cpp as a whole: where one byte leads, and when it is answered.
use ebus.Base.{
  false, if◌then◌else◌, ◌+◌, List, Option, ap, arith, none, refl, some, subst, true, ℕ, ◌∙◌, ◌≡◌,
}
use ebus.Types.{HandlerState, RequestResult}
use ebus.Sequence.{Sequence}
use ebus.Handler.{Handler, log}
use ebus.Handler.Alarms.{alarms, alarms-append, nothing_to_send}
use ebus.Handler.Calm.{passive_receive_master-alarms}
use ebus.Handler.Active.{request_bus}
use ebus.Handler.Answer.{passive_receive_master-Answer}
use ebus.Handler.Run.{run_in, begin_run, end_run, mark_begins, mark_ends, run, run_state}
use ebus.Handler.Successors.{
  Conduct, at_state, follows, listens, passive_receive_master_acknowledge-Conduct,
  passive_receive_slave-Conduct, passive_receive_slave_acknowledge-Conduct,
  reactive_receive_slave_acknowledge-Conduct, reactive_send_master_negative_acknowledge-Conduct,
  reactive_send_master_positive_acknowledge-Conduct, reactive_send_slave-Conduct,
}
use ebus.Handler.Successors.Active.{
  active_receive_master_acknowledge-Conduct, active_receive_slave-Conduct,
  active_send_master-Conduct, active_send_slave_negative_acknowledge-Conduct,
  active_send_slave_positive_acknowledge-Conduct, release_bus-Conduct, request_bus_on-Conduct,
}

pub begin_run-state :
    (result : RequestResult) (byte : ℕ) (h : Handler) → (begin_run result byte h).state ≡ h.state
unfolding begin_run mark_ends mark_begins log
begin_run-state result byte h = ground arith

begin_run-pending_write :
    (result : RequestResult) (byte : ℕ) (h : Handler)
    → (begin_run result byte h).pending_write ≡ none
unfolding begin_run
begin_run-pending_write result byte h = refl

begin_run-alarms :
    (result : RequestResult) (byte : ℕ) (h : Handler)
    → alarms (begin_run result byte h).events ≡ alarms h.events
unfolding begin_run mark_ends mark_begins log
begin_run-alarms result byte h = grind (arith, alarms-append)

nothing_to_send-begin_run :
    (result : RequestResult) (byte : ℕ) (h : Handler) (s : HandlerState)
    → nothing_to_send s (begin_run result byte h) ≡ nothing_to_send s h
unfolding begin_run mark_ends mark_begins log
nothing_to_send-begin_run result byte h HandlerState.active_send_master = ground arith
nothing_to_send-begin_run result byte h HandlerState.reactive_send_master_positive_acknowledge =
    ground arith
nothing_to_send-begin_run result byte h _ = refl

listens-nothing_to_send :
    (s : HandlerState) (h : Handler) → listens s ≡ true → nothing_to_send s h ≡ false
listens-nothing_to_send HandlerState.active_send_master h e = absurd (cc e)
listens-nothing_to_send HandlerState.reactive_send_master_positive_acknowledge h e = absurd (cc e)
listens-nothing_to_send _ h e = refl

abbrev pub writes : Option ℕ → ℕ
writes none = 0
writes (some byte) = 1

module _ (respond : List ℕ → Sequence → Sequence) where
  run_in-Conduct :
      (s : HandlerState) (byte : ℕ) (h : Handler)
      → Conduct s h (run_in respond s byte (at_state s h))
  unfolding run_in request_bus
  run_in-Conduct HandlerState.passive_receive_master byte h = record {
    follows_on =
        (passive_receive_master-Answer respond byte (at_state HandlerState.passive_receive_master h)
          refl).follows_on;
    stays_silent = λ e. cc;
    calm = omega (arith, passive_receive_master-alarms respond byte h);
  }
  run_in-Conduct HandlerState.request_bus byte h = request_bus_on-Conduct h.last_result byte h
  run_in-Conduct HandlerState.passive_receive_master_acknowledge byte h =
      passive_receive_master_acknowledge-Conduct byte h
  run_in-Conduct HandlerState.passive_receive_slave byte h = passive_receive_slave-Conduct byte h
  run_in-Conduct HandlerState.passive_receive_slave_acknowledge byte h =
      passive_receive_slave_acknowledge-Conduct byte h
  run_in-Conduct HandlerState.reactive_send_master_positive_acknowledge byte h =
      reactive_send_master_positive_acknowledge-Conduct byte h
  run_in-Conduct HandlerState.reactive_send_master_negative_acknowledge byte h =
      reactive_send_master_negative_acknowledge-Conduct byte h
  run_in-Conduct HandlerState.reactive_send_slave byte h = reactive_send_slave-Conduct byte h
  run_in-Conduct HandlerState.reactive_receive_slave_acknowledge byte h =
      reactive_receive_slave_acknowledge-Conduct byte h
  run_in-Conduct HandlerState.active_send_master byte h = active_send_master-Conduct byte h
  run_in-Conduct HandlerState.active_receive_master_acknowledge byte h =
      active_receive_master_acknowledge-Conduct byte h
  run_in-Conduct HandlerState.active_receive_slave byte h = active_receive_slave-Conduct byte h
  run_in-Conduct HandlerState.active_send_slave_positive_acknowledge byte h =
      active_send_slave_positive_acknowledge-Conduct byte h
  run_in-Conduct HandlerState.active_send_slave_negative_acknowledge byte h =
      active_send_slave_negative_acknowledge-Conduct byte h
  run_in-Conduct HandlerState.release_bus byte h = release_bus-Conduct byte h

  run_state-Conduct :
      (result : RequestResult) (byte : ℕ) (h : Handler)
      → Conduct h.state (begin_run result byte h) (run_state respond result byte h)
  unfolding run_state
  run_state-Conduct result byte h =
      let h' = begin_run result byte h in
      subst (λ s. Conduct s h' (run_in respond h'.state byte h')) (begin_run-state result byte h)
        (run_in-Conduct h'.state byte h')

  end_run-state : (w : Option ℕ) (h : Handler) → (end_run w h).state ≡ h.state
  unfolding end_run log
  end_run-state none h = refl
  end_run-state (some byte) h = refl

  end_run-alarms :
      (w : Option ℕ) (h : Handler) → alarms (end_run w h).events ≡ alarms h.events + writes w
  unfolding end_run log
  end_run-alarms none h = omega arith
  end_run-alarms (some byte) h = grind (arith, alarms-append)

  run_state-alarms :
      (result : RequestResult) (byte : ℕ) (h : Handler)
      → alarms (run_state respond result byte h).events
        ≡ alarms h.events + (if nothing_to_send h.state h then 1 else 0)
  run_state-alarms result byte h =
      let calm = (run_state-Conduct result byte h).calm in
      let begun = begin_run-alarms result byte h in
      let same = nothing_to_send-begin_run result byte h h.state in
      omega (arith, rw same at calm, begun)

  pub run-follows :
      (result : RequestResult) (byte : ℕ) (h : Handler)
      → (follows h.state (run respond result byte h).state ≡ true)
        × (alarms (run respond result byte h).events
            ≡ alarms h.events
              + (if nothing_to_send h.state h then 1 else 0)
              + writes (run_state respond result byte h).pending_write)
  unfolding run
  run-follows result byte h =
      let h' = run_state respond result byte h in
      let ended = end_run-alarms h'.pending_write h' in
      let calm = run_state-alarms result byte h in
      (rw end_run-state (run_state-Conduct result byte h).follows_on, omega (arith, ended, calm))

  -- While it listens to others, waits behind its NAK or for the bus to be free, the handler writes
  -- no byte, and reports no illegal transition.
  pub run_silent :
      (result : RequestResult) (byte : ℕ) (h : Handler)
      → listens h.state ≡ true
      → (run respond result byte h ≡ run_state respond result byte h)
        × (alarms (run respond result byte h).events ≡ alarms h.events)
  unfolding run end_run
  run_silent result byte h e =
      let h' = run_state respond result byte h in
      let quiet : h'.pending_write ≡ none =
        (run_state-Conduct result byte h).stays_silent e ∙ begin_run-pending_write result byte h in
      let same = ap (λ w. end_run w h') quiet in
      let calm = run_state-alarms result byte h in
      let sending = listens-nothing_to_send h.state h e in
      (same, ap (λ k. alarms k.events) same ∙ omega (arith, rw sending at calm))
