-- ===== src/Handler/Lockup.antt =====
-- The state that waits for the data count of a slave's answer (src/ebus/core/handler.cpp), where that
-- byte is refused.
use ebus.Base.{List, [], ap, arith, refl, ℕ, ◌<◌, ◌∙◌, ◌∷◌, ◌≡◌}
use ebus.Types.{HandlerState, RequestResult}
use ebus.Sequence.{Sequence, empty, size}
use ebus.Telegram.{max_data_bytes}
use ebus.Handler.{Handler, log, call_passive_reset}
use ebus.Handler.Passive.{reject_byte}
use ebus.Handler.Reactive.{passive_receive_slave}
use ebus.Handler.Run.{begin_run, mark_begins, mark_ends, run, run_in, run_state}
use ebus.Handler.Conduct.{begin_run-state, run_silent}

-- Bytes from the bus with the arbitration machine's results, none of which can be a data count.
abbrev pub NoCount : List (RequestResult × ℕ) → Type 0
NoCount [] = Unit {0}
NoCount ((result, byte) ∷ bs) = (max_data_bytes < byte) × NoCount bs

begin_run-passive_slave :
    (result : RequestResult) (byte : ℕ) (h : Handler)
    → (begin_run result byte h).passive_slave ≡ h.passive_slave
unfolding begin_run mark_ends mark_begins log
begin_run-passive_slave result byte h = ground arith

module _ (respond : List ℕ → Sequence → Sequence) where
  abbrev pub run_all : List (RequestResult × ℕ) → Handler → Handler
  run_all [] h = h
  run_all ((result, byte) ∷ bs) h = run_all bs (run respond result byte h)

  refused :
      (byte : ℕ) (h : Handler)
      → size h.passive_slave ≡ 0
      → max_data_bytes < byte
      → passive_receive_slave byte h ≡ reject_byte h
  unfolding passive_receive_slave
  refused byte h e l = ground arith

  waits :
      (result : RequestResult) (byte : ℕ) (h : Handler)
      → h.state ≡ HandlerState.passive_receive_slave
      → h.passive_slave ≡ empty
      → max_data_bytes < byte
      → let h' = run respond result byte h in
        (h'.state ≡ HandlerState.passive_receive_slave) × (h'.passive_slave ≡ empty)
  unfolding run_state run_in reject_byte call_passive_reset log
  waits result byte h s e l =
      let h' = begin_run result byte h in
      let quiet = (run_silent respond result byte h (rw s refl)).0 in
      let same : h'.state ≡ HandlerState.passive_receive_slave =
        begin_run-state result byte h ∙ s in
      let none_yet : size h'.passive_slave ≡ 0 =
        ap size (begin_run-passive_slave result byte h ∙ e) in
      let there : run respond result byte h ≡ reject_byte h' =
        quiet ∙ ap (λ s. run_in respond s byte h') same ∙ refused byte h' none_yet l in
      (ap (λ k. k.state) there ∙ same, ap (λ k. k.passive_slave) there)

  -- A machine that waits for the data count of a slave's answer, and has none of it yet, stays there on
  -- any number of bytes above 16, SYN among them.
  pub run_all_waits :
      (bs : List (RequestResult × ℕ)) (h : Handler)
      → h.state ≡ HandlerState.passive_receive_slave
      → h.passive_slave ≡ empty
      → NoCount bs
      → (run_all bs h).state ≡ HandlerState.passive_receive_slave
  run_all_waits [] h s e n = s
  run_all_waits ((result, byte) ∷ bs) h s e n =
      let one = waits result byte h s e n.0 in
      run_all_waits bs (run respond result byte h) one.0 one.1 n.1
