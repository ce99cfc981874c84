-- ===== src/Generator.antt =====
-- transaction_metadata/tree/index.js: the metadata tree and its index, from the templates' metadata.
pub mod Build
pub mod Tuples
pub mod Levels
pub mod Encode
pub mod Parsed
pub mod Shown
pub mod Arguments
pub mod Octets
pub mod Manifest
pub mod Keys
pub mod RoundTrip
pub mod Proofs
pub mod Cut
pub mod Complete
pub mod Descend
pub mod Whole
pub mod Index
