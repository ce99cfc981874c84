-- ===== src/Device/Accepts.antt =====
-- The device accepts the proof that the client takes from a tree with right hashes.
use app_flow.Prelude.{
  ℕ, ◌+◌, ◌≤◌, ◌≡◌, ◌∙◌, ap, refl, sym, ◌∙◌, true, Option, some, List, [], ◌∷◌, map, arith, Text,
  Bytes, length, ok, le→ltb_false,
}
use app_flow.Js.Hex.{from_hex}
use app_flow.Merkle.Tree.{
  Tree, Trees, string, node, nil, cons, hash, join_hashes, get_elem?-children,
}
use app_flow.Sign.{Chunk, LeafIndex, proof_chunks, hex_chunk}
use app_flow.Sign.PayloadType
use app_flow.Device.Stored.{Stored, parser_ok, has_hash, store_tx_metadata, validate_level}
use app_flow.Device.Hashes.{Contains-has_hash}
use app_flow.Device.Chunks.{
  Buffering, Machine, Verdict, not_finished, finished_with_metadata, process_chunk,
}
use app_flow.Device.Chain.{process_chunks, verdicts}
use app_flow.Device.Levels.{AllDigests, level_bytes, level_bytes-whole, level_bytes-Contains}

module _ (sha256 : Bytes → Option Bytes) where
  -- The hash of an inner node is that of its children's hashes, and its child `i` is `c`.
  abbrev pub IsStep : Tree → ℕ → Tree → Type 0
  IsStep (string s) i c = ⊥
  IsStep (node h ts) i c =
      AllDigests ts
      × (get_elem?-children ts i ≡ some c)
      × (sha256 (level_bytes ts) ≡ some (from_hex h))

  -- The hash of a leaf is that of its metadata.
  abbrev pub IsLeaf : Tree → Text → Type 0
  IsLeaf (string s) metadata = ⊥
  IsLeaf (node h nil) metadata = ⊥
  IsLeaf (node h (cons t ts)) metadata =
      (t ≡ string metadata) × (sha256 (from_hex metadata) ≡ some (from_hex h))

  validate_level-IsStep :
      (h : Text) (ts : Trees) (i : ℕ) (c : Tree) (s : Stored)
      → IsStep (node h ts) i c
      → 1 ≤ s.level
      → s.level ≤ 4
      → s.hash ≡ from_hex (hash c)
      → validate_level sha256 (level_bytes ts) s
        ≡ (record { metadata = s.metadata; level = s.level + 1; hash = from_hex h }, parser_ok)
  validate_level-IsStep h ts i c s (digests, at, digest) low high same =
      let (below, found) = level_bytes-Contains ts i c digests at in
      let whole = level_bytes-whole ts digests in
      let listed : has_hash (length (level_bytes ts)) (level_bytes ts) s.hash ≡ true =
        Contains-has_hash i (length (level_bytes ts)) (level_bytes ts) s.hash (omega (arith, below))
          below (found ∙ sym same) in
      unfold validate_level in
      rw (le→ltb_false s.level 1 low, le→ltb_false 4 s.level high, whole, listed, digest)

  store_tx_metadata-IsLeaf :
      (h metadata : Text) (t : Tree) (ts : Trees) (s : Stored)
      → IsLeaf (node h (cons t ts)) metadata
      → s.level ≡ 0
      → length (from_hex metadata) ≤ 255
      → store_tx_metadata sha256 (from_hex metadata) s
        ≡ (record { metadata = from_hex metadata; level = 1; hash = from_hex h }, parser_ok)
  store_tx_metadata-IsLeaf h metadata t ts s (same, digest) empty fits =
      unfold store_tx_metadata in
      rw (le→ltb_false 255 (length (from_hex metadata)) fits, empty, digest)

  -- The leaf at an index holds the metadata, and every hash on the way to it is right.
  abbrev pub IsProved : Tree → LeafIndex → Text → Type 0
  IsProved t at metadata =
      (n0 n1 n2 n3 : Tree) × IsStep t at.i0 n0
      × IsStep n0 at.i1 n1
      × IsStep n1 at.i2 n2
      × IsStep n2 at.i3 n3
      × IsLeaf n3 metadata

abbrev pub packet : Chunk → ℕ × ℕ × Bytes
packet c = (c.type, c.p2, c.buffer)

module _ (b : Buffering) (sha256 : Bytes → Option Bytes) where
  abbrev with_stored : Machine b sha256 → Bytes → ℕ → Bytes → Machine b sha256
  with_stored m metadata level hash = record m {
    stored = record { metadata = metadata; level = level; hash = hash };
  }

  process_metadata :
      (h metadata : Text) (t : Tree) (ts : Trees) (m : Machine b sha256)
      → IsLeaf sha256 (node h (cons t ts)) metadata
      → m.stored.level ≡ 0
      → length (from_hex metadata) ≤ 255
      → process_chunk b sha256 PayloadType.tx_metadata 0 (from_hex metadata) m
        ≡ (with_stored m (from_hex metadata) 1 (from_hex h), not_finished)
  unfolding process_chunk
  process_metadata h metadata t ts m leaf empty fits =
      rw (store_tx_metadata-IsLeaf sha256 h metadata t ts m.stored leaf empty fits) refl

  process_level :
      (h : Text) (ts : Trees) (i : ℕ) (c : Tree) (metadata : Bytes) (level : ℕ)
      (m : Machine b sha256)
      → IsStep sha256 (node h ts) i c
      → 1 ≤ level
      → level ≤ 4
      → process_chunk b sha256 PayloadType.merkle_tree 0
          (level_bytes ts)
          (with_stored m metadata level (from_hex (hash c)))
        ≡ (with_stored m metadata (level + 1) (from_hex h), not_finished)
  unfolding process_chunk
  process_level h ts i c metadata level m step low high =
      rw
        (validate_level-IsStep sha256 h ts i c
          (record { metadata = metadata; level = level; hash = from_hex (hash c) }) step low high
          refl)
        refl

  process_last_level :
      (h : Text) (ts : Trees) (i : ℕ) (c : Tree) (metadata : Bytes) (m : Machine b sha256)
      → IsStep sha256 (node h ts) i c
      → process_chunk b sha256 PayloadType.merkle_tree_last 0
          (level_bytes ts)
          (with_stored m metadata 4 (from_hex (hash c)))
        ≡ (with_stored m metadata 5 (from_hex h), finished_with_metadata)
  unfolding process_chunk
  process_last_level h ts i c metadata m step =
      rw
        (validate_level-IsStep sha256 h ts i c
          (record { metadata = metadata; level = 4; hash = from_hex (hash c) }) step (omega arith)
          (omega arith) refl)
        refl

  abbrev after : List Chunk → Machine b sha256 × Verdict → Machine b sha256
  after chunks (m, v) = process_chunks b sha256 (map packet chunks) m

  -- The client's packets for a leaf with right hashes are accepted one after the other, from a machine
  -- with no proof in progress, and leave the leaf's metadata with a proof that ends in the tree's hash.
  pub proof_chunks-process_chunks :
      (t : Tree) (at : LeafIndex) (metadata : Text) (m : Machine b sha256)
      → IsProved sha256 t at metadata
      → length (from_hex metadata) ≤ 255
      → m.stored.level ≡ 0
      → (chunks : List Chunk) × (proof_chunks t at ≡ ok chunks)
        × (verdicts b sha256 (map packet chunks) m
            ≡ not_finished ∷ not_finished ∷ not_finished ∷ not_finished ∷ finished_with_metadata
              ∷ [])
        × (process_chunks b sha256 (map packet chunks) m ≡ record m {
          stored = record { metadata = from_hex metadata; level = 5; hash = from_hex (hash t) };
        })
  proof_chunks-process_chunks (node h4 ts4) at metadata m
        (node h3 ts3, node h2 ts2, node h1 ts1, node h0 (cons l ls), s4, s3, s2, s1, leaf) fits
        empty =
      let e0 = process_metadata h0 metadata l ls m leaf empty fits in
      let e1 =
        process_level h1 ts1 at.i3 (node h0 (cons l ls)) (from_hex metadata) 1 m s1 (omega arith)
          (omega arith) in
      let e2 =
        process_level h2 ts2 at.i2 (node h1 ts1) (from_hex metadata) 2 m s2 (omega arith)
          (omega arith) in
      let e3 =
        process_level h3 ts3 at.i1 (node h2 ts2) (from_hex metadata) 3 m s3 (omega arith)
          (omega arith) in
      let e4 = process_last_level h4 ts4 at.i0 (node h3 ts3) (from_hex metadata) m s4 in
      let r4 = hex_chunk PayloadType.merkle_tree_last (join_hashes ts4) ∷ [] in
      let r3 = hex_chunk PayloadType.merkle_tree (join_hashes ts3) ∷ r4 in
      let r2 = hex_chunk PayloadType.merkle_tree (join_hashes ts2) ∷ r3 in
      let r1 = hex_chunk PayloadType.merkle_tree (join_hashes ts1) ∷ r2 in
      (
        hex_chunk PayloadType.tx_metadata metadata ∷ r1,
        unfold proof_chunks in rw (s4.1, s3.1, s2.1, s1.1, leaf.0) refl,
        rw (e0, e1, e2, e3, e4) refl,
        ap (after r1) e0
            ∙ ap (after r2) e1
            ∙ ap (after r3) e2
            ∙ ap (after r4) e3
            ∙ ap (after []) e4,
      )
  proof_chunks-process_chunks (string _) at metadata m (_, _, _, _, s4, _, _, _, _) fits empty =
      absurd s4
  proof_chunks-process_chunks (node _ _) at metadata m (string _, _, _, _, _, s3, _, _, _) fits
        empty =
      absurd s3
  proof_chunks-process_chunks (node _ _) at metadata m (node _ _, string _, _, _, _, _, s2, _, _)
        fits empty =
      absurd s2
  proof_chunks-process_chunks (node _ _) at metadata m
        (node _ _, node _ _, string _, _, _, _, _, s1, _) fits empty =
      absurd s1
  proof_chunks-process_chunks (node _ _) at metadata m
        (node _ _, node _ _, node _ _, string _, _, _, _, _, leaf) fits empty =
      absurd leaf
  proof_chunks-process_chunks (node _ _) at metadata m
        (node _ _, node _ _, node _ _, node _ nil, _, _, _, _, leaf) fits empty =
      absurd leaf
