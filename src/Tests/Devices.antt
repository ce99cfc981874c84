-- ===== src/Tests/Devices.antt =====
-- The device and the shipped data: runs, and their theorems at concrete inputs.
use app_flow.Prelude.{
  ◌==◌, if◌then◌else◌, ℕ, ◌≡◌, ◌≤◌, sym, subst, refl, true, Option, none, some, List, [], ◌∷◌, ◌++◌,
  map, arith, Text, Bytes, codes, replicate, take, length, ok,
}
use app_flow.Js.Number.{of_ℕ}
use app_flow.Js.Hex.{to_hex, from_hex, hex_value, hex_digit}
use app_flow.Merkle.Tree.{Tree, Trees, hash, string, node, nil, cons}
use app_flow.Sign
use app_flow.Sign.{
  Chunk, LeafIndex, leaf, lookup, prepare_basic_chunks, proof_chunks, sign_get_chunks,
}
use app_flow.Shipped.Shape.{merkle_tree, branch_0, branch_0_0}
use app_flow.Shipped.Branch0.{branch_0_0_0}
use app_flow.Shipped.Nodes
use app_flow.Shipped.Index.{merkle_index}
use app_flow.Shipped.Proofs.{IsProof, sign_get_chunks-shipped}
use app_flow.Tests.Samples.{wallet_path, options, serialized, wallet_written}
use app_flow.Device.Stored.{
  init_stored, merkle_tree_root, is_open, store_tx_metadata, validate_level, has_hash,
}
use app_flow.Device.Chunks.{Buffering, Machine, not_finished, finished_with_metadata, process_chunk}
use app_flow.Device.Chain.{Chain, process_chunks, verdicts, process_chunks-open}
use app_flow.Device.Levels.{all_digests-AllDigests, IsDigest}
use app_flow.Device.Accepts.{IsStep, IsProved, packet, proof_chunks-process_chunks}
use app_flow.Device.Gate.{process_chunks-shipped}

abbrev pub first_leaf : LeafIndex
first_leaf = record { i0 = 0; i1 = 0; i2 = 0; i3 = 0 }

abbrev pub create_account : Text
create_account = codes "c4a7efd8708396e8c7a3611f72a9f89f675bf6d5c9336dd389e5839cba78443c"

first_key : lookup (take 16 create_account) merkle_index ≡ leaf first_leaf
unfolding lookup
first_key = refl

sign_get_chunks-shipped_example :
    (proof : List Chunk) × (sign_get_chunks merkle_index merkle_tree wallet_path
        (of_ℕ options)
        (9 ∷ [])
        (Sign.text create_account)
      ≡ ok (prepare_basic_chunks serialized (9 ∷ []) ++ proof))
    × IsProof (take 16 create_account) proof
sign_get_chunks-shipped_example =
    sign_get_chunks-shipped wallet_path (of_ℕ options) (9 ∷ []) create_account serialized first_leaf
      wallet_written (refl, refl) first_key

abbrev pub plain_buffer : Buffering
plain_buffer = record {
  State = Bytes;
  initialize = λ s. [];
  append = λ s body. (s ++ body, length body);
}

-- A stand-in for the hash, which gives the root for every list.
abbrev always : Bytes → Option Bytes
always bytes = some merkle_tree_root

abbrev pub fresh : (sha256 : Bytes → Option Bytes) → Machine plain_buffer sha256
fresh sha256 = record { buffer = []; hd_path = []; crypto_options = []; stored = init_stored }

abbrev proof_packets : List (ℕ × ℕ × Bytes)
proof_packets =
    (3, 0, 1 ∷ [])
    ∷ (4, 0, merkle_tree_root)
    ∷ (4, 0, merkle_tree_root)
    ∷ (4, 0, merkle_tree_root)
    ∷ (5, 0, merkle_tree_root)
    ∷ []

opened : is_open (process_chunks plain_buffer always proof_packets (fresh always)).stored ≡ true
unfolding process_chunk store_tx_metadata validate_level has_hash
opened = refl

process_chunks-open_example :
    Chain always
      (process_chunks plain_buffer always proof_packets (fresh always)).stored.metadata
      5
      merkle_tree_root
process_chunks-open_example =
    process_chunks-open plain_buffer always proof_packets (fresh always) refl opened

abbrev pub zeros : Bytes
zeros = replicate 32 0

abbrev pub zero_hash : Bytes → Option Bytes
zero_hash bytes = some zeros

abbrev above : Tree → Tree
above t = node (to_hex zeros) (cons t nil)

abbrev pub zero_tree : Tree
zero_tree = above (above (above (above (node (to_hex zeros) (cons (string (codes "0102")) nil)))))

pub zero-IsDigest : IsDigest (to_hex zeros)
unfolding from_hex hex_value to_hex hex_digit
zero-IsDigest = (refl, omega arith, refl)

zero-IsStep : (c : Tree) → hash c ≡ to_hex zeros → IsStep zero_hash (above c) 0 c
unfolding from_hex hex_value to_hex hex_digit
zero-IsStep c e = ((subst IsDigest (sym e) zero-IsDigest, tt), refl, refl)

pub zero-IsProved : IsProved zero_hash zero_tree first_leaf (codes "0102")
unfolding from_hex hex_value to_hex hex_digit
zero-IsProved = (
  _,
  _,
  _,
  _,
  zero-IsStep _ refl,
  zero-IsStep _ refl,
  zero-IsStep _ refl,
  zero-IsStep _ refl,
  (refl, refl),
)

pub short_metadata : length (from_hex (codes "0102")) ≤ 255
unfolding from_hex hex_value
short_metadata = omega arith

proof_chunks-process_chunks_example :
    (chunks : List Chunk) × (proof_chunks zero_tree first_leaf ≡ ok chunks)
    × (verdicts plain_buffer zero_hash (map packet chunks) (fresh zero_hash)
        ≡ not_finished ∷ not_finished ∷ not_finished ∷ not_finished ∷ finished_with_metadata ∷ [])
    × (process_chunks plain_buffer zero_hash (map packet chunks) (fresh zero_hash)
        ≡ record (fresh zero_hash) {
          stored = record {
            metadata = from_hex (codes "0102");
            level = 5;
            hash = from_hex (hash zero_tree);
          };
        })
proof_chunks-process_chunks_example =
    proof_chunks-process_chunks plain_buffer zero_hash zero_tree first_leaf (codes "0102")
      (fresh zero_hash) zero-IsProved short_metadata refl

abbrev pub first_byte : Bytes → ℕ
first_byte [] = 0
first_byte (b ∷ _) = b

-- The hashes of the lists on the way to the first leaf, by the first byte of a list.
shipped_hash : Bytes → Option Bytes
shipped_hash bytes =
    let first = first_byte bytes in
    if first == 0x02
    then some (from_hex (codes "c43cfe541b0628a223d0b531ae1c92b537d22438fd19fd98ecf8b7759a56699c"))
    else if first == 0xc4
    then some (from_hex (codes "fdc9ed4c7d1cdd61c7d54718392d3b0d250fe687ca5dc36e49707cb82888f459"))
    else if first == 0xfd
    then some (from_hex (codes "fcdc17a0f2e78292d36c066caa52d36fb408fded1aad61a1929023d15e406ee9"))
    else if first == 0xfc
    then some (from_hex (codes "1558ab4cfb5964941db2fc676d05313b86f5d942336aca4d9e24f8b56d1b7d7a"))
    else if first == 0x15
    then some (from_hex (codes "735cf1a27bad047ca2a5125ea3316eca30b11911314a8935728c16280d2f6620"))
    else none

abbrev pub first_metadata : Text
first_metadata =
    codes
      "02c4a7efd8708396e8c7a3611f72a9f89f675bf6d5c9336dd389e5839cba78443cc4a7efd8708396e8c7a3611f72a9f89f675bf6d5c9336dd389e5839cba78443c437265617465204163636f756e740004045075626c6963204b65790000065369676e617475726520416c672e0001054861736820416c672e0002014b65792057656967687400035546697836340003"

abbrev trees_of : Tree → Trees
trees_of (string s) = nil
trees_of (node h ts) = ts

first-IsProved : IsProved shipped_hash merkle_tree first_leaf first_metadata
unfolding shipped_hash from_hex hex_value to_hex hex_digit
first-IsProved = (
  branch_0,
  branch_0_0,
  branch_0_0_0,
  Nodes.leaf (codes "c43cfe541b0628a223d0b531ae1c92b537d22438fd19fd98ecf8b7759a56699c")
      first_metadata,
  (all_digests-AllDigests (trees_of merkle_tree) refl, refl, refl),
  (all_digests-AllDigests (trees_of branch_0) refl, refl, refl),
  (all_digests-AllDigests (trees_of branch_0_0) refl, refl, refl),
  (all_digests-AllDigests (trees_of branch_0_0_0) refl, refl, refl),
  (refl, refl),
)

first_metadata_short : length (from_hex first_metadata) ≤ 255
unfolding from_hex hex_value
first_metadata_short = omega arith

process_chunks-shipped_example :
    (chunks : List Chunk) × (proof_chunks merkle_tree first_leaf ≡ ok chunks)
    × (is_open
          (process_chunks plain_buffer shipped_hash (map packet chunks) (fresh shipped_hash)).stored
        ≡ true)
    × ((process_chunks plain_buffer shipped_hash
          (map packet chunks)
          (fresh shipped_hash)).stored.metadata
        ≡ from_hex first_metadata)
process_chunks-shipped_example =
    process_chunks-shipped plain_buffer shipped_hash first_leaf first_metadata (fresh shipped_hash)
      first-IsProved first_metadata_short refl
