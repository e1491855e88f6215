-- ===== src/Handler/Matrix.antt =====
-- The transition matrix of src/ebus/core/handler.cpp.
use ebus.Base.{Bool, List, [], bit_and, bit_or, not, ℕ, ◌==◌, ◌^◌, ◌∷◌}
use ebus.Types.{HandlerState}

-- The value of the enumerator.
abbrev pub index : HandlerState → ℕ
index HandlerState.passive_receive_master = 0
index HandlerState.passive_receive_master_acknowledge = 1
index HandlerState.passive_receive_slave = 2
index HandlerState.passive_receive_slave_acknowledge = 3
index HandlerState.reactive_send_master_positive_acknowledge = 4
index HandlerState.reactive_send_master_negative_acknowledge = 5
index HandlerState.reactive_send_slave = 6
index HandlerState.reactive_receive_slave_acknowledge = 7
index HandlerState.request_bus = 8
index HandlerState.active_send_master = 9
index HandlerState.active_receive_master_acknowledge = 10
index HandlerState.active_receive_slave = 11
index HandlerState.active_send_slave_positive_acknowledge = 12
index HandlerState.active_send_slave_negative_acknowledge = 13
index HandlerState.release_bus = 14

mask : List HandlerState → ℕ
mask [] = 0
mask (s ∷ states) = bit_or (2 ^ index s) (mask states)

-- Every row holds `reset_trans` and `arb_trans`.
abbrev base_mask : List HandlerState → ℕ
base_mask states = mask (HandlerState.passive_receive_master ∷ HandlerState.request_bus ∷ states)

unfoldable pub transition_masks : HandlerState → ℕ
unfolding mask
transition_masks HandlerState.passive_receive_master = base_mask (
    HandlerState.passive_receive_master_acknowledge
    ∷ HandlerState.reactive_send_master_positive_acknowledge
    ∷ HandlerState.reactive_send_master_negative_acknowledge ∷ HandlerState.release_bus ∷ [])
transition_masks HandlerState.passive_receive_master_acknowledge =
    base_mask (HandlerState.passive_receive_slave ∷ [])
transition_masks HandlerState.passive_receive_slave =
    base_mask (HandlerState.passive_receive_slave_acknowledge ∷ [])
transition_masks HandlerState.passive_receive_slave_acknowledge =
    base_mask (HandlerState.passive_receive_slave ∷ [])
transition_masks HandlerState.reactive_send_master_positive_acknowledge =
    base_mask (HandlerState.reactive_send_slave ∷ [])
transition_masks HandlerState.reactive_send_master_negative_acknowledge = base_mask []
transition_masks HandlerState.reactive_send_slave =
    base_mask (HandlerState.reactive_receive_slave_acknowledge ∷ [])
transition_masks HandlerState.reactive_receive_slave_acknowledge =
    base_mask (HandlerState.reactive_send_slave ∷ [])
transition_masks HandlerState.request_bus =
    base_mask (HandlerState.active_send_master ∷ HandlerState.release_bus ∷ [])
transition_masks HandlerState.active_send_master =
    base_mask (HandlerState.active_receive_master_acknowledge ∷ HandlerState.release_bus ∷ [])
transition_masks HandlerState.active_receive_master_acknowledge = base_mask (
    HandlerState.active_send_master ∷ HandlerState.active_receive_slave ∷ HandlerState.release_bus
    ∷ [])
transition_masks HandlerState.active_receive_slave = base_mask (
    HandlerState.active_send_slave_positive_acknowledge
    ∷ HandlerState.active_send_slave_negative_acknowledge ∷ [])
transition_masks HandlerState.active_send_slave_positive_acknowledge =
    base_mask (HandlerState.release_bus ∷ [])
transition_masks HandlerState.active_send_slave_negative_acknowledge =
    base_mask (HandlerState.active_receive_slave ∷ HandlerState.release_bus ∷ [])
transition_masks HandlerState.release_bus = base_mask []

-- `next_bit & valid_mask`.
unfoldable pub is_valid_transition : HandlerState → HandlerState → Bool
unfolding transition_masks
is_valid_transition from next = not (bit_and (2 ^ index next) (transition_masks from) == 0)
