-- ===== src/Tests/Trusts.antt =====
-- From two manifests to what the device shows, at a concrete input.
use app_flow.Prelude.{
  map, ℕ, ◌≡◌, refl, ap, sym, ◌∙◌, ◌⊎◌, Option, some, none, List, [], ◌∷◌, arith, Text, Bytes,
  codes, ok, err, All, replicate, map, Result, ◌>>=◌,
}
use app_flow.Js.Hex.{to_hex, from_hex, hex_value, hex_digit}
use app_flow.Js.Utf8.{utf8}
use app_flow.Merkle.Tree.{Tree, string, node, nil, cons}
use app_flow.Shipped.Nodes
use app_flow.Device.Stored.{merkle_tree_root, store_tx_metadata, validate_level, has_hash}
use app_flow.Device.Chunks.{process_chunk}
use app_flow.Device.Chain.{IsSent, process_chunks}
use app_flow.Device.Levels.{IsDigest}
use app_flow.Device.Honest.{Collision, IsHashedIn}
use app_flow.Device.Parse.{parse_tx_metadata}
use app_flow.Generator.Build.{
  fill, build, tuples_from, merge_levels, leaves, process_merkle_tree_level,
}
use app_flow.Generator.Encode.{
  find, legerify, label_and_index, process_arg, process_args, templates_to_metadata,
}
use app_flow.Generator.RoundTrip.{shown_template}
use app_flow.Generator.Manifest.{
  Entry, ManifestError, invalid_length, insert, sort, encode_all, read_manifest, generate,
}
use app_flow.Generator.Manifest.Pairs.{IsShown, Pair}
use app_flow.Generator.Manifest.Trust.{process_chunks-shown}
use app_flow.Tests.Devices.{create_account, first_metadata, plain_buffer, fresh}
use app_flow.Tests.Generators.{create_template}
use app_flow.Tests.Parses.{proved, shown, read_first, hash_size}

-- A stand-in for the hash: the root, whatever is hashed.
abbrev pub root_text : Text
root_text = to_hex merkle_tree_root

abbrev pub root_hash : Text → Text
root_hash s = root_text

abbrev pub entry : Entry
entry = record { id = codes "CA.01"; template = create_template }

abbrev pub manifest : List Entry
manifest = entry ∷ []

abbrev beside : Tree → Tree → Tree
beside first empty = node root_text (Nodes.seven first empty empty empty empty empty empty)

abbrev leaf_with : Text → Tree
leaf_with s = node root_text (cons (string s) nil)

abbrev empty1 : Tree
empty1 = beside (leaf_with []) (leaf_with [])

abbrev empty2 : Tree
empty2 = beside empty1 empty1

abbrev empty3 : Tree
empty3 = beside empty2 empty2

abbrev pub tree : Tree
tree =
    beside (beside (beside (beside (leaf_with first_metadata) (leaf_with [])) empty1) empty2) empty3

abbrev full : List Text
full = first_metadata ∷ replicate 2400 []

built : build root_hash full ≡ some tree
unfolding build tuples_from merge_levels leaves process_merkle_tree_level
built = refl

filled : fill (first_metadata ∷ []) ≡ some full
unfolding fill
filled = refl

printed : to_hex (from_hex first_metadata) ≡ first_metadata
unfolding from_hex hex_value to_hex hex_digit
printed = refl

read_manifest_once : read_manifest manifest manifest ≡ ok (from_hex first_metadata ∷ [])
unfolding read_manifest encode_all sort insert templates_to_metadata process_args process_arg
    label_and_index legerify find utf8 from_hex hex_value
read_manifest_once = refl

-- What `generate` does with the metadata.
abbrev tree_of : List Bytes → Result ManifestError (Option Tree)
tree_of metadata = elim (fill (map to_hex metadata)) [
  | none ↦ err invalid_length
  | some full ↦ ok (build root_hash full)
]

abbrev tree_of_full : Option (List Text) → Result ManifestError (Option Tree)
tree_of_full filled = elim filled [
  | none ↦ err invalid_length
  | some full ↦ ok (build root_hash full)
]

pub generated : generate root_hash manifest manifest ≡ ok (some tree)
unfolding generate
generated =
    ap (λ r. r >>= tree_of) read_manifest_once
    ∙ ap (λ s. tree_of_full (fill (s ∷ []))) printed
    ∙ ap tree_of_full filled
    ∙ ap ok built

abbrev pub root_bytes : Bytes → Option Bytes
root_bytes bytes = some merkle_tree_root

abbrev packets : List (ℕ × ℕ × Bytes)
packets =
    (3, 0, from_hex first_metadata)
    ∷ (4, 0, merkle_tree_root)
    ∷ (4, 0, merkle_tree_root)
    ∷ (4, 0, merkle_tree_root)
    ∷ (5, 0, merkle_tree_root)
    ∷ []

stored : (process_chunks plain_buffer root_bytes packets (fresh root_bytes)).stored ≡ proved
unfolding process_chunk store_tx_metadata validate_level has_hash from_hex hex_value
stored = refl

pub IsDigest-root : IsDigest root_text
unfolding to_hex hex_digit from_hex hex_value
IsDigest-root = (refl, omega arith, refl)

pub root_hash_back : from_hex root_text ≡ merkle_tree_root
unfolding to_hex hex_digit from_hex hex_value
root_hash_back = refl

create_template-IsShown : All IsShown manifest
create_template-IsShown = ((omega arith, hash_size), tt)

process_chunks-shown_example :
    Collision root_bytes (IsHashedIn tree) (IsSent packets)
    ⊎ ((t m : Entry) × Pair (sort manifest) (sort manifest) t m
        × ((from_hex create_account ≡ from_hex t.template.hash)
            ⊎ (from_hex create_account ≡ from_hex m.template.hash))
        × (shown ≡ shown_template m.template))
process_chunks-shown_example =
    process_chunks-shown root_hash root_bytes (λ s. IsDigest-root)
      (λ s h. ap some (sym root_hash_back)) plain_buffer (fresh root_bytes) manifest manifest tree
      packets (from_hex create_account) shown refl create_template-IsShown create_template-IsShown
      generated root_hash_back hash_size
      (ap (parse_tx_metadata (from_hex create_account)) stored ∙ read_first)
