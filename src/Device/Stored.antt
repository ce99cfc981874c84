-- ===== src/Device/Stored.antt =====
-- src/tx_metadata.c: the metadata in store, and how far its Merkle proof has come.
use app_flow.Prelude.{
  ℕ, zero, suc, ◌+◌, ◌%◌, Bool, false, ◌&&◌, ◌||◌, not, Option, none, some, [], ◌∷◌, ltb, ◌==◌,
  if◌then◌else◌, Bytes, text_eq, length, is_empty, take, drop, replicate,
}

-- METADATA_HASH_SIZE
abbrev pub hash_size : ℕ
hash_size = 32

-- METADATA_MERKLE_TREE_LEVELS
abbrev pub levels : ℕ
levels = 4

abbrev pub merkle_tree_root : Bytes
merkle_tree_root =
    0x73 ∷ 0x5c ∷ 0xf1 ∷ 0xa2 ∷ 0x7b ∷ 0xad ∷ 0x04 ∷ 0x7c ∷ 0xa2 ∷ 0xa5 ∷ 0x12 ∷ 0x5e ∷ 0xa3 ∷ 0x31
    ∷ 0x6e ∷ 0xca ∷ 0x30 ∷ 0xb1 ∷ 0x19 ∷ 0x11 ∷ 0x31 ∷ 0x4a ∷ 0x89 ∷ 0x35 ∷ 0x72 ∷ 0x8c ∷ 0x16
    ∷ 0x28 ∷ 0x0d ∷ 0x2f ∷ 0x66 ∷ 0x20 ∷ []

-- `txMetadataState`; `metadata` is the part of the buffer that its length covers.
pub record Stored : Type 0 where
  pub metadata : Bytes
  pub level : ℕ
  pub hash : Bytes

-- `initStoredTxMetadata`
abbrev pub init_stored : Stored
init_stored = record { metadata = []; level = 0; hash = replicate 32 0 }

-- The codes of `parser_error_t` that the functions return.
pub data ParserStatus : Type 0 where
  parser_ok metadata_error unexpected_error : ParserStatus

-- The loop over `hashes`, whose length is a multiple of 32: it takes 32 bytes a round.
unfoldable pub has_hash : ℕ → Bytes → Bytes → Bool
has_hash zero hashes hash = false
has_hash (suc fuel) hashes hash =
    let rest = has_hash fuel (drop hash_size hashes) hash in
    if is_empty hashes then false else text_eq (take hash_size hashes) hash || rest

-- `sha256` of the vendored library; `none` where it fails.
module _ (sha256 : Bytes → Option Bytes) where
  unfoldable pub store_tx_metadata : Bytes → Stored → Stored × ParserStatus
  store_tx_metadata body s =
      if ltb 255 (length body)
      then (s, metadata_error)
      else if not (s.level == 0)
      then (s, unexpected_error)
      else elim (sha256 body) [
        | none ↦ (record { metadata = body; level = s.level; hash = s.hash }, unexpected_error)
        | some h ↦ (record { metadata = body; level = 1; hash = h }, parser_ok)
      ]

  -- `validateStoredTxMetadataMerkleTreeLevel`
  unfoldable pub validate_level : Bytes → Stored → Stored × ParserStatus
  validate_level hashes s =
      if ltb s.level 1 || ltb levels s.level
      then (s, metadata_error)
      else if not (length hashes % hash_size == 0)
      then (s, metadata_error)
      else if not (has_hash (length hashes) hashes s.hash)
      then (s, metadata_error)
      else elim (sha256 hashes) [
        | none ↦ (s, unexpected_error)
        | some h ↦ (record { metadata = s.metadata; level = s.level + 1; hash = h }, parser_ok)
      ]

-- The two tests of `parseTxMetadata` in front of the parse.
abbrev pub is_open : Stored → Bool
is_open s = (s.level == levels + 1) && text_eq s.hash merkle_tree_root
