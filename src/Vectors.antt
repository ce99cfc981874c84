-- ===== src/Vectors.antt =====
-- transaction_metadata/tests/index.js: the cases that the device's tests are made of. A value of
-- JavaScript that may be undefined is an Option.
pub mod Data
pub mod Select
pub mod Merge
pub mod Cases
pub mod Combinations
pub mod Merged
pub mod Signatures
