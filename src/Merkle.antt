-- ===== src/Merkle.antt =====
-- The Merkle tree object of txMerkleTree.js, as js/src/signTransaction.js reads it.
pub mod Tree
