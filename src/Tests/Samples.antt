-- ===== src/Tests/Samples.antt =====
-- Data that the runs share: a path of js/test/test.js with its options, and a small tree.
use app_flow.Prelude.{
  ℕ, ◌≡◌, refl, true, false, List, [], ◌∷◌, ◌++◌, arith, Text, Bytes, codes, take, ok,
}
use app_flow.Js.Number
use app_flow.Js.Number.{of_ℕ, unit}
use app_flow.Js.Buffer.{le_bytes}
use app_flow.Path.{PathArg, text, serialize_path, number, validate_crypto_options}
use app_flow.Path.Items.{Item}
use app_flow.Path.Layout.{path_text, path_bytes, serialize_path-path_text}
use app_flow.Merkle.Tree.{Tree, string, node, nil, cons}
use app_flow.Sign.{MerkleIndex, undefined, lookup}

abbrev pub hard : ℕ → Item
hard n = record { index = n; is_hardened = true }

abbrev pub soft : ℕ → Item
soft n = record { index = n; is_hardened = false }

abbrev pub options : ℕ
options = 0x0301

abbrev pub wallet : List Item
wallet = hard 44 ∷ hard 539 ∷ hard 513 ∷ soft 0 ∷ soft 1 ∷ []

abbrev pub wallet_path : PathArg
wallet_path = text (path_text wallet)

abbrev pub serialized : Bytes
serialized = path_bytes wallet ++ le_bytes 2 options

pub wallet_written : serialize_path wallet_path (of_ℕ options) ≡ ok serialized
wallet_written =
    serialize_path-path_text (hard 44) (hard 539) (hard 513) (soft 0) (soft 1) options (omega arith)
      (omega arith)

pub accepted_options : validate_crypto_options (number (of_ℕ options)) ≡ ok (of_ℕ options)
unfolding validate_crypto_options Number.is_integer Number.is_negative Number.ge unit
accepted_options = refl

abbrev pub leaf_tree : Tree
leaf_tree = node (codes "aa") (cons (string (codes "0102")) nil)

abbrev pub one_child : Text → Tree → Tree
one_child h t = node h (cons t nil)

abbrev pub small_tree : Tree
small_tree =
    one_child (codes "ee")
      (one_child (codes "dd") (one_child (codes "cc") (one_child (codes "bb") leaf_tree)))

abbrev pub small_index : MerkleIndex
small_index = (codes "0123456789abcdef", record { i0 = 0; i1 = 0; i2 = 0; i3 = 0 }) ∷ []

pub unknown_key : lookup (take 16 (codes "ffff")) small_index ≡ undefined
unfolding lookup
unknown_key = refl
