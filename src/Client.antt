-- ===== src/Client.antt =====
-- js/src/index.js: the FlowApp class. The transport of @ledgerhq/hw-transport is a parameter.
pub mod Ins
pub mod Transport
pub mod Constants
pub mod Responses
pub mod Payloads
pub mod App
pub mod Signing
pub mod Gate
pub mod Slots
pub mod Address
