-- ===== src/Types.antt =====
-- The protocol's enumerations: include/ebus/types.hpp, and TelegramType of include/ebus/address.hpp.
use ebus.Base.{Bool, true, false}

pub data TelegramType : Type 0 where
  undefined broadcast master_master master_slave : TelegramType

pub data LogLevel : Type 0 where
  none error info debug : LogLevel

pub data MessageType : Type 0 where
  undefined active passive reactive : MessageType

pub data SequenceState : Type 0 where
  seq_empty seq_ok err_seq_too_short err_seq_too_long err_source_address : SequenceState
  err_target_address err_data_byte err_crc_invalid err_ack_invalid : SequenceState
  err_ack_missing err_ack_negative : SequenceState

pub data HandlerState : Type 0 where
  passive_receive_master passive_receive_master_acknowledge : HandlerState
  passive_receive_slave passive_receive_slave_acknowledge : HandlerState
  reactive_send_master_positive_acknowledge : HandlerState
  reactive_send_master_negative_acknowledge : HandlerState
  reactive_send_slave reactive_receive_slave_acknowledge : HandlerState
  request_bus active_send_master active_receive_master_acknowledge : HandlerState
  active_receive_slave active_send_slave_positive_acknowledge : HandlerState
  active_send_slave_negative_acknowledge release_bus : HandlerState

pub data RequestState : Type 0 where
  observe first retry second : RequestState

pub data RequestResult : Type 0 where
  observe_syn observe_data first_syn first_won first_retry first_lost first_error : RequestResult
  retry_syn retry_error second_won second_lost second_error : RequestResult

pub data ProtocolError : Type 0 where
  none error_passive_master error_passive_master_ack error_passive_slave : ProtocolError
  error_passive_slave_ack error_reactive_master error_reactive_master_ack : ProtocolError
  error_reactive_slave error_reactive_slave_ack error_active_master_echo : ProtocolError
  error_active_master error_active_master_ack error_active_slave : ProtocolError
  error_active_slave_ack check_passive_buffers check_active_buffers : ProtocolError
  illegal_fsm_transition handler_busy invalid_message fsm_timeout : ProtocolError
  arbitration_lost total_transfer_timeout : ProtocolError

-- `state == SequenceState::seq_ok`.
abbrev pub is_ok : SequenceState → Bool
is_ok SequenceState.seq_ok = true
is_ok _ = false

-- `type == TelegramType::broadcast`, and so for the other types.
abbrev pub is_broadcast : TelegramType → Bool
is_broadcast TelegramType.broadcast = true
is_broadcast _ = false

abbrev pub is_master_master : TelegramType → Bool
is_master_master TelegramType.master_master = true
is_master_master _ = false

abbrev pub is_master_slave : TelegramType → Bool
is_master_slave TelegramType.master_slave = true
is_master_slave _ = false
