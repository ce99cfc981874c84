-- ===== src/Shipped.antt =====
-- js/src/txMerkleTree.js: the tree, and the index of script hashes.
pub mod Nodes
pub mod Branch0
pub mod Branch1
pub mod Branch2
pub mod Branch3
pub mod Shape
pub mod Index
pub mod Proofs
