-- ===== src/Telegram/Parse/Sound.antt =====
-- `parse` of src/ebus/core/telegram.hpp: what a telegram holds whose states report success.
use ebus.Base.{get_or, true, ◌≡◌}
use ebus.Symbols
use ebus.Address.{type_of}
use ebus.Types.{is_ok, is_master_slave}
use ebus.Sequence.{Sequence, crc}
use ebus.Telegram.{Telegram}
use ebus.Telegram.Create.{IsMasterPart}
use ebus.Telegram.Slave.{IsSlavePart}
use ebus.Telegram.Parse.{Part}

pub record MasterRead (t : Telegram) : Type 0 where
  pub part : IsMasterPart t.master.sequence
  pub checksum : t.master_crc ≡ crc t.master
  pub kind : t.telegram_type ≡ type_of (get_or t.master.sequence 1 0)

pub record SlaveRead (t : Telegram) : Type 0 where
  pub part : IsSlavePart t.slave.sequence
  pub checksum : t.slave_crc ≡ crc t.slave

abbrev MasterSound : Part → Type 0
MasterSound p = is_ok (p.telegram.master_state) ≡ true → MasterRead p.telegram

abbrev SlaveSound : Part → Type 0
SlaveSound p = is_ok (p.telegram.slave_state) ≡ true → SlaveRead p.telegram

-- The master part has been read, and the slave part if its state says so.
abbrev BothSound : Telegram → Type 0
BothSound t = MasterRead t × (is_ok t.slave_state ≡ true → SlaveRead t)

-- What a valid telegram holds: a master part and, if it is a master-slave telegram, a slave part.
abbrev pub Holds : Telegram → Type 0
Holds t = MasterRead t × (is_master_slave t.telegram_type ≡ true → SlaveRead t)
