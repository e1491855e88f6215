-- ===== src/Tests/Settings.antt =====
-- src/ebus/app/config_validator.cpp on concrete configurations, and what a buffer that it accepts leads to.
use ebus.Address.{is_master}
use ebus.Base.{false, refl, true, ◌-◌, ◌^◌, ◌≡◌, [], ◌∷◌}
use ebus.Client.{ClientType, create_client, enqueue_outgoing_data}
use ebus.Config.{default_config, requires_hardware_restart, validate, EbusConfig}

default_test : validate default_config ≡ true
unfolding validate is_master
default_test = refl

no_master_test : validate (record default_config { address = 0x08 }) ≡ false
unfolding validate is_master
no_master_test = refl

-- The sum of the timeout and the backoff wraps around.
abbrev wrapping : EbusConfig
wrapping = record default_config {
  scheduler = record {
    max_attempts = 3;
    base_backoff_ms = 100;
    fsm_timeout_ms = 2 ^ 32 - 10;
    total_timeout_ms = 2 ^ 32 - 5;
  };
}

wrapping_test : validate wrapping ≡ true
unfolding validate is_master
wrapping_test = refl

-- An outbound buffer of one byte: the count of an enhanced client wraps around.
abbrev tiny : EbusConfig
tiny = record default_config {
  network = record (default_config.network) { outbound_buffer_size = 1 };
}

tiny_test : validate tiny ≡ true
unfolding validate is_master
tiny_test = refl

restart_test :
    requires_hardware_restart default_config (record default_config { device = [] }) ≡ true
restart_test = refl

tiny_buffer_test :
    ((enqueue_outgoing_data
      (0xaa ∷ [])
      (create_client ClientType.enhanced tiny.network.outbound_buffer_size)).outbound
    ).count
    ≡ 2 ^ 64 - 1
unfolding enqueue_outgoing_data
tiny_buffer_test = refl
