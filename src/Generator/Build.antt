-- ===== src/Generator/Build.antt =====
-- transaction_metadata/tree/index.js, from the list of metadata on. SHA-256 is a parameter, from the
-- text that the hasher was fed to the digest, both in hexadecimal.
use app_flow.Prelude.{
  ℕ, zero, suc, ◌+◌, ◌-◌, ◌%◌, ◌^◌, Option, none, some, List, [], ◌∷◌, ◌++◌, map, ltb, ◌==◌,
  if◌then◌else◌, Text, length, get_elem?, take, drop, replicate,
}
use app_flow.Merkle.Tree.{Tree, Trees, string, node, nil, cons}

-- MERKLE_TREE_DEPTH
abbrev pub merkle_tree_depth : ℕ
merkle_tree_depth = 4

abbrev pub trees : List Tree → Trees
trees [] = nil
trees (t ∷ ts) = cons t (trees ts)

-- What the hasher is fed for a child.
abbrev pub fed : Tree → Text
fed (string s) = s
fed (node h ts) = h

abbrev pub feed : List Tree → Text
feed [] = []
feed (t ∷ ts) = fed t ++ feed ts

-- The tuples that `reduce` pushes from an index on.
unfoldable pub tuples_from {ℓ} : {A : Type ℓ} → List A → List A → ℕ → List (List A)
tuples_from array [] index = []
tuples_from array (value ∷ rest) index =
    let more = tuples_from array rest (index + 1) in
    if index % 7 == 0 then take 7 (drop index array) ∷ more else more

abbrev pub split_to_7_tuples {ℓ} : {A : Type ℓ} → List A → List (List A)
split_to_7_tuples array = tuples_from array array 0

-- `none` where `Array` throws, on more metadata than leaves.
unfoldable pub fill : List Text → Option (List Text)
fill metadata =
    if ltb (7 ^ merkle_tree_depth) (length metadata)
    then none
    else some (metadata ++ replicate (7 ^ merkle_tree_depth - length metadata) [])

module _ (sha256 : Text → Text) where
  unfoldable pub process_merkle_tree_level : List Tree → Tree
  process_merkle_tree_level children = node (sha256 (feed children)) (trees children)

  unfoldable pub leaves : List Text → List Tree
  leaves metadata = map (λ m. process_merkle_tree_level (string m ∷ [])) metadata

  -- The loop over the levels.
  unfoldable pub merge_levels : ℕ → List Tree → List Tree
  merge_levels zero merkle_tree = merkle_tree
  merge_levels (suc rounds) merkle_tree =
      merge_levels rounds (map process_merkle_tree_level (split_to_7_tuples merkle_tree))

  -- `merkleTree[0]` after the loop.
  unfoldable pub build : List Text → Option Tree
  build metadata = get_elem? (merge_levels merkle_tree_depth (leaves metadata)) 0
