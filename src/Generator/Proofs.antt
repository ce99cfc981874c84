-- ===== src/Generator/Proofs.antt =====
-- The device accepts the client's packets for every leaf of a tree that the generator builds.
use app_flow.Prelude.{
  ℕ, zero, suc, ◌+◌, ◌-◌, ◌*◌, ◌≤◌, ◌<◌, ◌≡◌, refl, ap, sym, ◌∙◌, Option, none, some, List, [], ◌∷◌,
  ◌++◌, append-nil, map, arith, Text, Bytes, All, length, get_elem?, take, drop, ok, replicate,
  length-append, lt-cases, inl, inr, lt→ltb, le→ltb_false,
}
use app_flow.Js.Hex.{from_hex}
use app_flow.Merkle.Tree.{Tree, string, hash}
use app_flow.Sign.{Chunk, LeafIndex, proof_chunks}
use app_flow.Device.Levels.{IsDigest}
use app_flow.Device.Chunks.{Buffering, Machine, not_finished, finished_with_metadata}
use app_flow.Device.Chain.{process_chunks, verdicts}
use app_flow.Device.Accepts.{IsStep, IsLeaf, IsProved, packet, proof_chunks-process_chunks}
use app_flow.Generator.Build.{
  trees, feed, process_merkle_tree_level, split_to_7_tuples, fill, leaves, merge_levels, build,
}
use app_flow.Generator.Tuples.{get_elem?-split_to_7_tuples, length-split_to_7_tuples}
use app_flow.Generator.Levels.{
  get_elem?-map, length-map, All-map, All-take, All-drop, get_elem?-tuple, get_elem?-trees,
  IsHashed, IsHex, feed-trees, trees-AllDigests, join_hashes-IsHex,
}

-- Where the metadata of a leaf stands in the list that the tree is built from.
abbrev pub position : LeafIndex → ℕ
position at = 7 * (7 * (7 * at.i0 + at.i1) + at.i2) + at.i3

abbrev pub InTree : LeafIndex → Type 0
InTree at = (at.i0 < 7) × (at.i1 < 7) × (at.i2 < 7) × (at.i3 < 7)

length-replicate : (n : ℕ) → length (replicate n (let s : Text = [] in s)) ≡ n
length-replicate zero = refl
length-replicate (suc n) = ap suc (length-replicate n)

fill_fits :
    (metadata : List Text)
    → length metadata ≤ 2401
    → fill metadata ≡ some (metadata ++ replicate (2401 - length metadata) [])
unfolding fill
fill_fits metadata h = rw (le→ltb_false 2401 (length metadata) h) refl

fill_fails : (metadata : List Text) → 2401 < length metadata → fill metadata ≡ none
unfolding fill
fill_fails metadata h = rw (lt→ltb 2401 (length metadata) h) refl

pub length-fill : (metadata full : List Text) → fill metadata ≡ some full → length full ≡ 2401
length-fill metadata full h = elim (lt-cases 2401 (length metadata)) [
  | inl more ↦ absurd (cc (h, fill_fails metadata more))
  | inr fits ↦
      let rest = replicate (2401 - length metadata) (let s : Text = [] in s) in
      let same : metadata ++ rest ≡ full =
        ap {A = Option (List Text)} (elim [ none ↦ full | some x ↦ x ])
          (sym (fill_fits metadata fits) ∙ h) in
      sym (ap length same)
      ∙ length-append metadata rest
      ∙ ap (λ n. length metadata + n) (length-replicate (2401 - length metadata))
      ∙ omega arith
]

-- `sha256` is the generator's hash of hexadecimal text, `sha256_bytes` the device's of bytes.
module _ (sha256 : Text → Text) (sha256_bytes : Bytes → Option Bytes)
    (digests : (s : Text) → IsDigest (sha256 s))
    (agree : (s : Text) → IsHex s → sha256_bytes (from_hex s) ≡ some (from_hex (sha256 s))) where
  abbrev merge : List Tree → Tree
  merge = process_merkle_tree_level sha256

  merge-IsHashed : (ts : List Tree) → IsHashed (merge ts)
  unfolding process_merkle_tree_level
  merge-IsHashed ts = digests (feed ts)

  abbrev tuple : List Tree → ℕ → List Tree
  tuple level p = take 7 (drop (7 * p) level)

  merge-IsStep :
      (level : List Tree) (p i : ℕ) (c : Tree)
      → All IsHashed level
      → i < 7
      → get_elem? level (7 * p + i) ≡ some c
      → IsStep sha256_bytes (merge (tuple level p)) i c
  unfolding process_merkle_tree_level
  merge-IsStep level p i c hashed small e =
      let here : All IsHashed (tuple level p) =
        All-take IsHashed 7 (drop (7 * p) level) (All-drop IsHashed (7 * p) level hashed) in
      let same = feed-trees (tuple level p) here in
      let valid =
        join_hashes-IsHex (trees (tuple level p)) (trees-AllDigests (tuple level p) here) in
      (
        trees-AllDigests (tuple level p) here,
        get_elem?-trees (tuple level p) i ∙ get_elem?-tuple level p i small ∙ e,
        agree _ valid ∙ ap (λ s. some (from_hex (sha256 s))) (sym same),
      )

  -- The next level.
  abbrev above : List Tree → List Tree
  above level = map merge (split_to_7_tuples level)

  get_elem?-above :
      (level : List Tree) (p : ℕ)
      → 7 * p < length level
      → get_elem? (above level) p ≡ some (merge (tuple level p))
  get_elem?-above level p h =
      get_elem?-map merge (split_to_7_tuples level) p (get_elem?-split_to_7_tuples level p h)

  above-All-IsHashed : (level : List Tree) → All IsHashed (above level)
  above-All-IsHashed level = All-map IsHashed merge merge-IsHashed (split_to_7_tuples level)

  length-above : (k : ℕ) (level : List Tree) → length level ≡ 7 * k → length (above level) ≡ k
  length-above k level h =
      length-map merge (split_to_7_tuples level) ∙ length-split_to_7_tuples k level h

  abbrev leaf_of : Text → Tree
  leaf_of m = merge (string m ∷ [])

  leaf_of-IsLeaf : (m : Text) → IsHex m → IsLeaf sha256_bytes (leaf_of m) m
  unfolding process_merkle_tree_level
  leaf_of-IsLeaf m h = (refl, agree m h ∙ ap (λ s. some (from_hex (sha256 s))) (sym (append-nil m)))

  -- The leaf at an index holds the metadata at its position, and each hash on the way to it is right.
  pub build-IsProved :
      (metadata full : List Text) (at : LeafIndex) (m : Text)
      → fill metadata ≡ some full
      → InTree at
      → get_elem? full (position at) ≡ some m
      → IsHex m
      → (t : Tree) × (build sha256 full ≡ some t) × IsProved sha256_bytes t at m
  unfolding build merge_levels leaves
  build-IsProved metadata full at m filled (h0, h1, h2, h3) found hex =
      let l0 = map leaf_of full in
      let l1 = above l0 in
      let l2 = above l1 in
      let l3 = above l2 in
      let p1 = at.i0 in
      let p2 = 7 * p1 + at.i1 in
      let p3 = 7 * p2 + at.i2 in
      let s0 : length l0 ≡ 2401 = length-map leaf_of full ∙ length-fill metadata full filled in
      let s1 : length l1 ≡ 343 = length-above 343 l0 s0 in
      let s2 : length l2 ≡ 49 = length-above 49 l1 s1 in
      let s3 : length l3 ≡ 7 = length-above 7 l2 s2 in
      let e3 = get_elem?-map leaf_of full (7 * p3 + at.i3) found in
      let e2 = get_elem?-above l0 p3 (omega (arith, s0)) in
      let e1 = get_elem?-above l1 p2 (omega (arith, s1)) in
      let e0 = get_elem?-above l2 p1 (omega (arith, s2)) in
      let first : 7 * 0 + at.i0 ≡ at.i0 = omega arith in
      (
        merge (tuple l3 0),
        get_elem?-above l3 0 (omega (arith, s3)),
        (
          merge (tuple l2 p1),
          merge (tuple l1 p2),
          merge (tuple l0 p3),
          leaf_of m,
          merge-IsStep l3 0 at.i0 (merge (tuple l2 p1)) (above-All-IsHashed l2) h0
              (ap (get_elem? l3) first ∙ e0),
          merge-IsStep l2 p1 at.i1 (merge (tuple l1 p2)) (above-All-IsHashed l1) h1 e1,
          merge-IsStep l1 p2 at.i2 (merge (tuple l0 p3)) (above-All-IsHashed l0) h2 e2,
          merge-IsStep l0 p3 at.i3 (leaf_of m)
              (All-map IsHashed leaf_of (λ x. merge-IsHashed (string x ∷ [])) full) h3 e3,
          leaf_of-IsLeaf m hex,
        ),
      )

  -- The client's packets for that leaf are accepted one after the other by a device with no proof in
  -- progress, and leave the metadata in store with a proof that ends in the tree's hash.
  pub build-process_chunks :
      (b : Buffering) (machine : Machine b sha256_bytes) (metadata full : List Text)
      (at : LeafIndex) (m : Text)
      → fill metadata ≡ some full
      → InTree at
      → get_elem? full (position at) ≡ some m
      → IsHex m
      → length (from_hex m) ≤ 255
      → machine.stored.level ≡ 0
      → (t : Tree) × (chunks : List Chunk) × (build sha256 full ≡ some t)
        × (proof_chunks t at ≡ ok chunks)
        × (verdicts b sha256_bytes (map packet chunks) machine
            ≡ not_finished ∷ not_finished ∷ not_finished ∷ not_finished ∷ finished_with_metadata
              ∷ [])
        × (process_chunks b sha256_bytes (map packet chunks) machine ≡ record machine {
          stored = record { metadata = from_hex m; level = 5; hash = from_hex (hash t) };
        })
  build-process_chunks b machine metadata full at m filled inside found hex fits empty =
      let (t, built, proved) = build-IsProved metadata full at m filled inside found hex in
      let (chunks, made, returned, after) =
        proof_chunks-process_chunks b sha256_bytes t at m machine proved fits empty in
      (t, chunks, built, made, returned, after)
