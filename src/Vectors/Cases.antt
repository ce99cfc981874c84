-- ===== src/Vectors/Cases.antt =====
-- transaction_metadata/tests/index.js: transactions, and the cases of the manifests' templates.
use app_flow.Prelude.{
  ℕ, ◌+◌, Bool, true, Option, none, some, List, [], ◌∷◌, ◌++◌, ◌==◌, if◌then◌else◌, Text, codes,
  length, take,
}
use app_flow.Prelude.Digits.{format}
use app_flow.Js.Hex.{from_hex}
use app_flow.Merkle.Tree.{Tree, string, node, child, get_elem?-children}
use app_flow.Sign.{MerkleIndex, Entry, leaf, inherited, undefined, lookup}
use app_flow.Vectors.Select.{select_argument_combinations, sample_arguments}
use app_flow.Vectors.Merge.{combine_merge}
use app_flow.Vectors.Data.{
  Network, testnet, mainnet, address_of, public_key, sig_algo_ecdsa_p256, hash_algo_sha3_256,
  weight_max, Transaction, Partial, Libraries, Sample,
}

-- `t.children[0]` of what stands at the end of the way; the outer `none` where an access throws.
abbrev pub first_child : Tree → Option (Option Tree)
first_child (string s) = none
first_child (node h ts) = some (get_elem?-children ts 0)

abbrev pub at_path : Tree → List ℕ → Option (Option Tree)
at_path t [] = first_child t
at_path t (i ∷ is) = elim (child t i) [ none ↦ none | some c ↦ at_path c is ]

-- The element may be undefined; the outer `none` where an access throws.
unfoldable pub get_merkle_tree_element : Tree → Entry → Option (Option Tree)
get_merkle_tree_element tree (leaf at) = at_path tree (at.i0 ∷ at.i1 ∷ at.i2 ∷ at.i3 ∷ [])
get_merkle_tree_element tree inherited = none
get_merkle_tree_element tree undefined = none

module _ (lib : Libraries) where
  open lib use {Value}

  -- DEFAULT_ACCOUNT_KEY, by `encodeAccountKey`
  abbrev pub default_account_key : Text
  default_account_key =
      lib.encode_key (from_hex public_key) sig_algo_ecdsa_p256 hash_algo_sha3_256 weight_max

  abbrev pub base_payload_tx : Network → Transaction Value
  base_payload_tx network = record {
    script = [];
    arguments = some (lib.string_value default_account_key) ∷ [];
    ref_block = codes "f0e4c2f76c58916ec258f246851bea091d14d4247a2fc3e18694461b1816e13b";
    gas_limit = 42;
    proposal_key = record { address = address_of network; key_id = 4; sequence_num = 10 };
    payer = address_of network;
    authorizers = address_of network ∷ [];
    payload_sigs = none;
  }

  abbrev pub base_envelope_tx : Network → Transaction Value
  base_envelope_tx network = record (base_payload_tx network) {
    payload_sigs = some (
        record {
          address = address_of network;
          key_id = 4;
          sig = codes "f7225388c1d69d57e6251c9fda50cbbf9e05131e5adb81e5aa0422402f048162";
        }
        ∷ []);
  }

  -- `merge` with `combineMerge` for the arrays.
  abbrev pub build_payload_tx : Network → Partial Value → Transaction Value
  build_payload_tx network partial =
      lib.merge_transaction (combine_merge lib) (base_payload_tx network) partial

  abbrev pub build_envelope_tx : Network → Partial Value → Transaction Value
  build_envelope_tx network partial =
      lib.merge_transaction (combine_merge lib) (base_envelope_tx network) partial

  -- A case before it is encoded: its title, transaction, network and script hash.
  pub record Draft : Type 0 where
    pub title : Text
    pub tx : Transaction Value
    pub network : Network
    pub script_hash : Text

  pub record Testcase : Type 0 where
    pub title : Text
    pub valid : Bool
    pub chain_id : Network
    pub payload_message : Transaction Value
    pub envelope_message : Transaction Value
    pub encoded_payload : Text
    pub encoded_envelope : Text
    pub metadata : Option Tree
    pub script_hash : Text

  abbrev pub with_element : Option (Option Tree) → (Option Tree → Testcase) → Option Testcase
  with_element none f = none
  with_element (some metadata) f = some (f metadata)

  abbrev pub without_sigs : Transaction Value → Transaction Value
  without_sigs tx = record tx { payload_sigs = some [] }

  module _ (merkle_index : MerkleIndex) (merkle_tree : Tree) where
    abbrev pub element_of : Text → Option (Option Tree)
    element_of script_hash =
        get_merkle_tree_element merkle_tree (lookup (take 16 script_hash) merkle_index)

    -- `none` where the way to the element throws, as for a script that is not in the index.
    unfoldable pub create_payload_testcase : Bool → Draft → Option Testcase
    create_payload_testcase valid x = with_element (element_of x.script_hash) λ metadata. record {
      title = x.title;
      valid = valid;
      chain_id = x.network;
      payload_message = x.tx;
      envelope_message = without_sigs x.tx;
      encoded_payload = lib.encode_payload x.tx;
      encoded_envelope = lib.encode_envelope (without_sigs x.tx);
      metadata = metadata;
      script_hash = x.script_hash;
    }

    -- The same text stands in the file twice.
    unfoldable pub create_envelope_testcase : Bool → Draft → Option Testcase
    create_envelope_testcase valid x = with_element (element_of x.script_hash) λ metadata. record {
      title = x.title;
      valid = valid;
      chain_id = x.network;
      payload_message = x.tx;
      envelope_message = without_sigs x.tx;
      encoded_payload = lib.encode_payload x.tx;
      encoded_envelope = lib.encode_envelope (without_sigs x.tx);
      metadata = metadata;
      script_hash = x.script_hash;
    }

  abbrev pub title_of : Sample Value → ℕ → ℕ → Text
  title_of t count i =
      let name = t.id ++ (codes " - " ++ t.name) in
      if count == 1 then name else name ++ (codes " - " ++ format (i + 1))

  -- The cases of one template, from combination `i` on.
  unfoldable pub drafts_from :
      (Partial Value → Transaction Value)
      → Network
      → Sample Value
      → ℕ
      → ℕ
      → List (List (Option ℕ))
      → List Draft
  drafts_from build network t count i [] = []
  drafts_from build network t count i (combination ∷ combinations) =
      record {
        title = title_of t count i;
        tx =
            build
              (record { script = t.source; arguments = sample_arguments t.arguments combination });
        network = network;
        script_hash = lib.sha256 t.source;
      }
      ∷ drafts_from build network t count (i + 1) combinations

  abbrev pub drafts_of : (Partial Value → Transaction Value) → Network → Sample Value → List Draft
  drafts_of build network t =
      let combinations = select_argument_combinations t.arguments in
      drafts_from build network t (length combinations) 0 combinations

  -- `flatMap` over the templates.
  unfoldable pub manifest_cases :
      (Partial Value → Transaction Value) → Network → List (Sample Value) → List Draft
  manifest_cases build network [] = []
  manifest_cases build network (t ∷ ts) =
      drafts_of build network t ++ manifest_cases build network ts

  -- The lists in front of the last `map`: the cases of the test net, then those of the main net.
  abbrev pub payload_drafts : List (Sample Value) → List (Sample Value) → List Draft
  payload_drafts testnet_templates mainnet_templates =
      manifest_cases (build_payload_tx testnet) testnet testnet_templates
      ++ manifest_cases (build_payload_tx mainnet) mainnet mainnet_templates

  abbrev pub envelope_drafts : List (Sample Value) → List (Sample Value) → List Draft
  envelope_drafts testnet_templates mainnet_templates =
      manifest_cases (build_envelope_tx testnet) testnet testnet_templates
      ++ manifest_cases (build_envelope_tx mainnet) mainnet mainnet_templates

  -- `map` with a function that may throw.
  abbrev pub map_all : (Draft → Option Testcase) → List Draft → Option (List Testcase)
  map_all create [] = some []
  map_all create (x ∷ xs) = elim (create x) [
    | none ↦ none
    | some c ↦ elim (map_all create xs) [ none ↦ none | some cs ↦ some (c ∷ cs) ]
  ]

  module _ (merkle_index : MerkleIndex) (merkle_tree : Tree)
      (testnet_templates mainnet_templates : List (Sample Value)) where
    abbrev pub manifest_payload_cases : Option (List Testcase)
    manifest_payload_cases =
        map_all (create_payload_testcase merkle_index merkle_tree true)
          (payload_drafts testnet_templates mainnet_templates)

    abbrev pub manifest_envelope_cases : Option (List Testcase)
    manifest_envelope_cases =
        map_all (create_envelope_testcase merkle_index merkle_tree true)
          (envelope_drafts testnet_templates mainnet_templates)
