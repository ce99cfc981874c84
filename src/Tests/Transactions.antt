-- ===== src/Tests/Transactions.antt =====
-- A whole transaction with metadata at a concrete input.
use app_flow.Device.Chunks.{is_known_net}
use app_flow.Js.Buffer.{read_uint32_le}
use app_flow.Prelude.{true, ◌≡◌, refl, List, [], ◌∷◌, ◌++◌, map, take, Text, codes, ok}
use app_flow.Js.Hex.{from_hex}
use app_flow.Js.Number.{of_ℕ}
use app_flow.Merkle.Tree.{hash}
use app_flow.Sign
use app_flow.Sign.{Chunk, lookup, leaf, prepare_basic_chunks, sign_get_chunks}
use app_flow.Tests.Samples.{wallet_path, options, serialized, wallet_written, small_index}
use app_flow.Tests.Devices.{
  plain_buffer, fresh, zero_hash, zero_tree, zero-IsProved, first_leaf, short_metadata,
}
use app_flow.Device.Chunks.{not_finished, finished_with_metadata}
use app_flow.Device.Chain.{process_chunks, verdicts}
use app_flow.Device.Accepts.{packet}
use app_flow.Device.Transaction.{going_on, sign_get_chunks-process_chunks}

abbrev pub script_hash : Text
script_hash = codes "0123456789abcdef00"

pub hash_found : lookup (take 16 script_hash) small_index ≡ leaf first_leaf
unfolding lookup
hash_found = refl

pub main_net : is_known_net (take 20 serialized) ≡ true
unfolding read_uint32_le
main_net = refl

sign_get_chunks-process_chunks_example :
    (proof : List Chunk) × (sign_get_chunks small_index zero_tree wallet_path
        (of_ℕ options)
        (9 ∷ [])
        (Sign.text script_hash)
      ≡ ok (prepare_basic_chunks serialized (9 ∷ []) ++ proof))
    × (verdicts plain_buffer zero_hash
          (map packet (prepare_basic_chunks serialized (9 ∷ []) ++ proof))
          (fresh zero_hash)
        ≡ going_on plain_buffer zero_hash (prepare_basic_chunks serialized (9 ∷ []))
          ++ not_finished ∷ not_finished ∷ not_finished ∷ not_finished ∷ finished_with_metadata
            ∷ [])
    × ((process_chunks plain_buffer zero_hash
          (map packet (prepare_basic_chunks serialized (9 ∷ []) ++ proof))
          (fresh zero_hash)).stored
        ≡ record {
          metadata = from_hex (codes "0102");
          level = 5;
          hash = from_hex (hash zero_tree);
        })
sign_get_chunks-process_chunks_example =
    sign_get_chunks-process_chunks plain_buffer zero_hash small_index zero_tree wallet_path
      (of_ℕ options) (9 ∷ []) script_hash serialized first_leaf (codes "0102") (fresh zero_hash)
      wallet_written main_net (refl, refl) hash_found zero-IsProved short_metadata (λ s bytes. refl)
