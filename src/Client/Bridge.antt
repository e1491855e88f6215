-- ===== src/Client/Bridge.antt =====
-- src/ebus/app/client.cpp: what a client makes of a byte of the bus while it sends.
use ebus.Base.{[], if◌then◌else◌, not, ℕ, ◌==◌, ◌∷◌}
use ebus.Client.{Client, ClientType, create_enhanced_response, enqueue_outgoing_data}
use ebus.Enhanced.{Response}
use ebus.Types.{RequestResult}

pub data BridgeAction : Type 0 where
  keep_active stop_session bypass_wait : BridgeAction

-- The groups of results that the switches tell apart.
pub data Outcome : Type 0 where
  arbitration_won arbitration_lost arbitration_error data_seen other_seen : Outcome

abbrev pub outcome_of : RequestResult → Outcome
outcome_of RequestResult.first_won = Outcome.arbitration_won
outcome_of RequestResult.second_won = Outcome.arbitration_won
outcome_of RequestResult.first_lost = Outcome.arbitration_lost
outcome_of RequestResult.second_lost = Outcome.arbitration_lost
outcome_of RequestResult.first_error = Outcome.arbitration_error
outcome_of RequestResult.second_error = Outcome.arbitration_error
outcome_of RequestResult.retry_error = Outcome.arbitration_error
outcome_of RequestResult.observe_data = Outcome.data_seen
outcome_of _ = Outcome.other_seen

unfoldable pub on_bus_byte_regular : Outcome → ℕ → Client → Client × BridgeAction
on_bus_byte_regular Outcome.arbitration_won byte c =
    (enqueue_outgoing_data (byte ∷ []) c, BridgeAction.bypass_wait)
on_bus_byte_regular Outcome.arbitration_lost byte c = (c, BridgeAction.stop_session)
on_bus_byte_regular Outcome.arbitration_error byte c = (c, BridgeAction.stop_session)
on_bus_byte_regular Outcome.data_seen byte c =
    if not (byte == c.last_sent_byte)
    then (c, BridgeAction.stop_session)
    else (enqueue_outgoing_data (byte ∷ []) c, BridgeAction.bypass_wait)
on_bus_byte_regular Outcome.other_seen byte c =
    (enqueue_outgoing_data (byte ∷ []) c, BridgeAction.keep_active)

unfoldable pub on_bus_byte_enhanced : Outcome → ℕ → Client → Client × BridgeAction
on_bus_byte_enhanced Outcome.arbitration_lost byte c =
    (create_enhanced_response Response.failed byte c, BridgeAction.stop_session)
on_bus_byte_enhanced Outcome.arbitration_error byte c =
    (create_enhanced_response Response.error_ebus 0 c, BridgeAction.stop_session)
on_bus_byte_enhanced Outcome.arbitration_won byte c =
    (create_enhanced_response Response.started byte c, BridgeAction.bypass_wait)
on_bus_byte_enhanced Outcome.data_seen byte c = (
  create_enhanced_response Response.received byte c,
  if byte == c.last_sent_byte then BridgeAction.bypass_wait else BridgeAction.keep_active,
)
on_bus_byte_enhanced Outcome.other_seen byte c =
    (create_enhanced_response Response.received byte c, BridgeAction.keep_active)

unfoldable pub on_bus_byte : RequestResult → ℕ → Client → Client × BridgeAction
unfolding on_bus_byte_regular on_bus_byte_enhanced
on_bus_byte result byte c =
    if not c.connected then (c, BridgeAction.stop_session) else elim c.kind [
      | ClientType.read_only ↦ (c, BridgeAction.stop_session)
      | ClientType.regular ↦ on_bus_byte_regular (outcome_of result) byte c
      | ClientType.enhanced ↦ on_bus_byte_enhanced (outcome_of result) byte c
    ]
