-- ===== src/Tests/Generators.antt =====
-- The generator: a run of its tuples, and its theorems at concrete inputs.
use app_flow.Prelude.{
  length, err, take, ◌≤◌, ℕ, ◌≡◌, refl, some, List, [], ◌∷◌, ◌++◌, map, arith, Text, codes,
  replicate, ok,
}
use app_flow.Js.Hex.{to_hex, from_hex, hex_value, hex_digit}
use app_flow.Merkle.Tree.{Tree, hash, string, node, nil, cons}
use app_flow.Sign.{MerkleIndex, leaf, lookup, Chunk, LeafIndex, proof_chunks}
use app_flow.Device.Chunks.{not_finished, finished_with_metadata}
use app_flow.Device.Chain.{process_chunks, verdicts}
use app_flow.Device.Accepts.{packet}
use app_flow.Generator.Build.{tuples_from, split_to_7_tuples, fill, build}
use app_flow.Generator.Levels.{IsHex}
use app_flow.Generator.Proofs.{build-process_chunks}
use app_flow.Js.Utf8.{utf8}
use app_flow.Generator.Keys.{templates_to_metadata-key}
use app_flow.Generator.Encode.{
  Argument, Template, undefined_name, find, legerify, label_and_index, process_arg, process_args,
  templates_to_metadata,
}
use app_flow.Device.Levels.{IsDigest}
use app_flow.Generator.Index.{
  key, number_of_hashes, set_entry, add_hashes, add_leaves, build_index, IsKeyOf,
  build_index-lookup,
}
use app_flow.Shipped.Nodes
use app_flow.Tests.Devices.{
  create_account, first_metadata, plain_buffer, fresh, zeros, zero_hash, first_leaf, zero-IsDigest,
  short_metadata,
}

abbrev nine : List ℕ
nine = 1 ∷ 2 ∷ 3 ∷ 4 ∷ 5 ∷ 6 ∷ 7 ∷ 8 ∷ 9 ∷ []

nine_tuples : split_to_7_tuples nine ≡ (1 ∷ 2 ∷ 3 ∷ 4 ∷ 5 ∷ 6 ∷ 7 ∷ []) ∷ (8 ∷ 9 ∷ []) ∷ []
unfolding tuples_from
nine_tuples = refl

-- A stand-in for the hash of text.
abbrev zero_text : Text → Text
zero_text s = to_hex zeros

agree : (s : Text) → IsHex s → zero_hash (from_hex s) ≡ some (from_hex (zero_text s))
unfolding from_hex hex_value to_hex hex_digit
agree s h = refl

abbrev one_template : List Text
one_template = codes "0102" ∷ []

abbrev full : List Text
full = one_template ++ replicate 2400 []

filled : fill one_template ≡ some full
unfolding fill
filled = refl

template-IsHex : IsHex (codes "0102")
unfolding from_hex hex_value to_hex hex_digit
template-IsHex = refl

build-process_chunks_example :
    (t : Tree) × (chunks : List Chunk) × (build zero_text full ≡ some t)
    × (proof_chunks t first_leaf ≡ ok chunks)
    × (verdicts plain_buffer zero_hash (map packet chunks) (fresh zero_hash)
        ≡ not_finished ∷ not_finished ∷ not_finished ∷ not_finished ∷ finished_with_metadata ∷ [])
    × (process_chunks plain_buffer zero_hash (map packet chunks) (fresh zero_hash)
        ≡ record (fresh zero_hash) {
          stored = record {
            metadata = from_hex (codes "0102");
            level = 5;
            hash = from_hex (hash t);
          };
        })
build-process_chunks_example =
    build-process_chunks zero_text zero_hash (λ s. zero-IsDigest) agree plain_buffer
      (fresh zero_hash) one_template full first_leaf (codes "0102") filled (omega arith) refl
      template-IsHex short_metadata refl

-- Seven children at each node, and one template with one hash.
abbrev uniform : Tree → Tree
uniform t = node (to_hex zeros) (Nodes.seven t t t t t t t)

abbrev one_hash : Text
one_hash = codes "01c4a7efd8708396e8c7a3611f72a9f89f675bf6d5c9336dd389e5839cba78443c"

abbrev uniform_tree : Tree
uniform_tree =
    uniform (uniform (uniform (uniform (node (to_hex zeros) (cons (string one_hash) nil)))))

abbrev last_leaf : LeafIndex
last_leaf = record { i0 = 6; i1 = 6; i2 = 6; i3 = 6 }

abbrev uniform_index : MerkleIndex
uniform_index = (codes "c4a7efd8708396e8", last_leaf) ∷ []

uniform_built : build_index uniform_tree ≡ some uniform_index
unfolding build_index add_leaves add_hashes set_entry number_of_hashes hex_value
uniform_built = refl

uniform_found : lookup (codes "c4a7efd8708396e8") uniform_index ≡ leaf last_leaf
unfolding lookup
uniform_found = refl

build_index-lookup_example : IsKeyOf uniform_tree (codes "c4a7efd8708396e8") last_leaf
build_index-lookup_example =
    build_index-lookup uniform_tree uniform_index (codes "c4a7efd8708396e8") last_leaf uniform_built
      uniform_found

abbrev pub argument : Text → Text → Argument
argument label type = record { label = label; type = type }

abbrev pub create_template : Template
create_template = record {
  hash = create_account;
  name = codes "Create Account";
  arguments =
      argument (codes "Public Key") (codes "String")
      ∷ argument (codes "Raw Value for Signature Algorithm Enum") (codes "UInt8")
      ∷ argument (codes "Raw Value for Hash Algorithm Enum") (codes "UInt8")
      ∷ argument (codes "Key Weight") (codes "UFix64")
      ∷ [];
}

-- The metadata of the template is that of the first leaf that is shipped.
pub created : templates_to_metadata create_template create_template ≡ ok (from_hex first_metadata)
unfolding templates_to_metadata process_args process_arg label_and_index legerify find utf8 from_hex
    hex_value
created = refl

optional_array : process_arg (argument (codes "Ids") (codes "[UInt64]?")) 0 ≡ err undefined_name
unfolding process_arg
optional_array = refl

create_account-IsDigest : IsDigest create_account
unfolding from_hex hex_value to_hex hex_digit
create_account-IsDigest = (refl, omega arith, refl)

templates_to_metadata-key_example :
    (length (from_hex first_metadata) ≤ 255)
    × (number_of_hashes (to_hex (from_hex first_metadata)) ≡ 2)
    × (key (to_hex (from_hex first_metadata)) 0 ≡ take 16 create_account)
    × (key (to_hex (from_hex first_metadata)) 1 ≡ take 16 create_account)
templates_to_metadata-key_example =
    templates_to_metadata-key create_template create_template (from_hex first_metadata) created
      create_account-IsDigest create_account-IsDigest
