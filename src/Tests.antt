-- ===== src/Tests.antt =====
-- Runs of the definitions on concrete bytes, and the theorems at concrete inputs.
pub mod Wire
pub mod Telegrams
pub mod Arbitration
pub mod Protocol
pub mod Enhanced
pub mod Events
pub mod Scheduling
pub mod Values
pub mod Clients
pub mod Polling
pub mod Devices
pub mod Settings
pub mod Json
