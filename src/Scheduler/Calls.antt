-- ===== src/Scheduler/Calls.antt =====
-- The calls on the scheduler of src/ebus/app/scheduler.cpp as data, so that a run is a list of them.
use ebus.Base.{List, [], ℕ, ◌%◌, ◌^◌, ◌∷◌}
use ebus.Scheduler.Callbacks.{
  ProtocolInfo, on_bus_request_lost, on_bus_request_won, on_handler_protocol,
}
use ebus.Scheduler.{
  clear, enqueue_at, reset_peak_metrics, set_base_backoff, set_fsm_timeout, set_max_attempts,
  set_total_timeout, stop, ProtocolEvent, Scheduler, compare_items,
}
use ebus.Scheduler.Tick.{Node, inject_protocol_event, tick}
use ebus.Heap.{HeapOps}

-- The calls that settle how messages are sent, and those of the handler.
pub data Setting : Type 0 where
  base_backoff fsm_timeout total_timeout : ℕ → Setting
  reset_peak request_won request_lost : Setting
  protocol : ProtocolInfo → Setting

-- An attempt count is a byte.
pub data Call : Type 0 where
  call_setting : Setting → Call
  call_max_attempts : ℕ → Call
  call_clear call_stop : Call
  call_enqueue_at : ℕ → List ℕ → ℕ → ℕ → Call
  call_tick : ℕ → ℕ → Call
  call_inject : ProtocolEvent → ℕ → Call

unfoldable pub settle : Setting → Node → Scheduler
settle (Setting.base_backoff ms) (s, h) = set_base_backoff ms s
settle (Setting.fsm_timeout ms) (s, h) = set_fsm_timeout ms s
settle (Setting.total_timeout ms) (s, h) = set_total_timeout ms s
settle Setting.reset_peak (s, h) = reset_peak_metrics s
settle Setting.request_won (s, h) = on_bus_request_won h s
settle Setting.request_lost (s, h) = on_bus_request_lost h s
settle (Setting.protocol info) (s, h) = on_handler_protocol info s

module _ (heap : HeapOps compare_items) where
  unfoldable pub step : Call → Node → Node
  step (Call.call_setting c) (s, h) = (settle c (s, h), h)
  step (Call.call_max_attempts n) (s, h) = (set_max_attempts (n % 2 ^ 8) s, h)
  step Call.call_clear (s, h) = (clear s, h)
  step Call.call_stop (s, h) = (stop s, h)
  step (Call.call_enqueue_at priority message when poll_id) (s, h) =
      ((enqueue_at heap priority message when poll_id s).0, h)
  step (Call.call_tick now start_time) n = (tick heap now start_time n).0
  step (Call.call_inject event now) n = (inject_protocol_event heap event now n).0

  unfoldable pub run : List Call → Node → Node
  run [] n = n
  run (c ∷ cs) n = run cs (step c n)
