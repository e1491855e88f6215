-- ===== src/Config.antt =====
-- include/ebus/config.hpp and src/ebus/app/config_validator.cpp: the configuration and its check, as built for
-- POSIX. The parts that only the reader of a configuration uses are left out.
use ebus.Address.{is_master}
use ebus.Base.{
  Bool, List, [], false, if◌then◌else◌, leb, length, ltb, not, true, ℕ, ◌%◌, ◌+◌, ◌==◌, ◌^◌, ◌∷◌,
  ◌||◌,
}

pub record BusSettings : Type 0 where
  pub window_us : ℕ
  pub offset_us : ℕ
  pub watchdog_timeout_ms : ℕ

pub record SchedulerSettings : Type 0 where
  pub max_attempts : ℕ
  pub base_backoff_ms : ℕ
  pub fsm_timeout_ms : ℕ
  pub total_timeout_ms : ℕ

pub record NetworkSettings : Type 0 where
  pub session_timeout_ms : ℕ
  pub transmit_timeout_ms : ℕ
  pub outbound_buffer_size : ℕ
  pub enable_server : Bool
  pub port_regular : ℕ
  pub port_readonly : ℕ
  pub port_enhanced : ℕ

pub record EbusConfig : Type 0 where
  pub address : ℕ
  pub lock_counter : ℕ
  pub bus : BusSettings
  pub scheduler : SchedulerSettings
  pub network : NetworkSettings
  pub device : List ℕ

-- The defaults; the device is "/dev/null".
abbrev pub default_config : EbusConfig
default_config = record {
  address = 0xff;
  lock_counter = 3;
  bus = record { window_us = 4300; offset_us = 80; watchdog_timeout_ms = 250 };
  scheduler = record {
    max_attempts = 3;
    base_backoff_ms = 100;
    fsm_timeout_ms = 1000;
    total_timeout_ms = 2000;
  };
  network = record {
    session_timeout_ms = 500;
    transmit_timeout_ms = 250;
    outbound_buffer_size = 4096;
    enable_server = false;
    port_regular = 3333;
    port_readonly = 3334;
    port_enhanced = 3335;
  };
  device = 0x2f ∷ 0x64 ∷ 0x65 ∷ 0x76 ∷ 0x2f ∷ 0x6e ∷ 0x75 ∷ 0x6c ∷ 0x6c ∷ [];
}

-- The first refusals of `validate`.
abbrev pub accepts_bus : BusSettings → Bool
accepts_bus b =
    if ltb b.window_us 4000 || ltb 5000 b.window_us
    then false
    else if ltb 500 b.offset_us
    then false
    else not (b.watchdog_timeout_ms == 0)

-- The sum has 32 bits.
abbrev pub accepts_scheduler : SchedulerSettings → Bool
accepts_scheduler s =
    if ltb s.max_attempts 1
    then false
    else if s.base_backoff_ms == 0
    then false
    else if s.fsm_timeout_ms == 0
    then false
    else if leb s.total_timeout_ms s.fsm_timeout_ms
    then false
    else not (ltb s.total_timeout_ms ((s.fsm_timeout_ms + s.base_backoff_ms) % 2 ^ 32))

abbrev pub accepts_ports : NetworkSettings → Bool
accepts_ports n =
    if n.port_regular == 0 || (n.port_readonly == 0 || n.port_enhanced == 0)
    then false
    else not (
        n.port_regular == n.port_readonly
        || (n.port_regular == n.port_enhanced || n.port_readonly == n.port_enhanced))

abbrev pub accepts_network : NetworkSettings → Bool
accepts_network n =
    if n.outbound_buffer_size == 0
    then false
    else if n.session_timeout_ms == 0
    then false
    else if n.transmit_timeout_ms == 0
    then false
    else if n.enable_server
    then accepts_ports n
    else true

unfoldable pub validate : EbusConfig → Bool
validate c =
    if not (is_master c.address)
    then false
    else if ltb 25 c.lock_counter
    then false
    else if not (accepts_bus c.bus)
    then false
    else if not (accepts_scheduler c.scheduler)
    then false
    else if not (accepts_network c.network)
    then false
    else not (length c.device == 0)

-- `requiresHardwareRestart`
abbrev pub is_same_device : List ℕ → List ℕ → Bool
is_same_device [] [] = true
is_same_device (a ∷ left) (b ∷ right) = if a == b then is_same_device left right else false
is_same_device left right = false

abbrev pub requires_hardware_restart : EbusConfig → EbusConfig → Bool
requires_hardware_restart old_cfg new_cfg = not (is_same_device old_cfg.device new_cfg.device)
