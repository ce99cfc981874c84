-- ===== src/Device.antt =====
-- The device's app: src/tx_metadata.c, `process_chunk` of src/common/app_helper.c, and `handleSign` of
-- src/apdu_handler.c.
pub mod Stored
pub mod Parse
pub mod Chunks
pub mod Hashes
pub mod Chain
pub mod Levels
pub mod Accepts
pub mod Gate
pub mod Honest
pub mod Handler
pub mod Session
pub mod Refused
pub mod Transaction
