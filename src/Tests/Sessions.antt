-- ===== src/Tests/Sessions.antt =====
-- A call of `sign` with a device at the other end, at a concrete input.
use app_flow.Prelude.{◌≡◌, refl, false, [], ◌∷◌, codes, ok, ◌>>=◌}
use app_flow.Js.Hex.{from_hex}
use app_flow.Js.Number.{of_ℕ}
use app_flow.Path
use app_flow.Merkle.Tree.{hash}
use app_flow.Common.Version.{parse_version, compare_version}
use app_flow.Sign
use app_flow.Client.Transport.{resolved}
use app_flow.Client.Payloads.{answer, is_old}
use app_flow.Client.App.{get_version, sign}
use app_flow.Device.Chunks.{Machine}
use app_flow.Device.Handler.{Outside, handle_apdu, device}
use app_flow.Device.Session.{reviewed, sign-handle_apdu}
use app_flow.Tests.Samples.{
  wallet_path, options, serialized, wallet_written, small_index, accepted_options,
}
use app_flow.Tests.Devices.{
  plain_buffer, fresh, zero_hash, zero_tree, zero-IsProved, first_leaf, short_metadata,
}
use app_flow.Tests.Transactions.{script_hash, hash_found, main_net}
use app_flow.Prelude.{All, arith, map, List, ◌++◌}
use app_flow.Js.Buffer.{read_uint32_le}
use app_flow.Sign.{Chunk, add_chunks, prepare_basic_chunks, sign_get_chunks}
use app_flow.Sign.Workflows.{sign_get_chunks_known}
use app_flow.Device.Stored.{init_stored, store_tx_metadata, validate_level}
use app_flow.Device.Chunks.{thrown, data_invalid, start, append, process_chunk}
use app_flow.Device.Chain.{process_chunks, verdicts}
use app_flow.Device.Accepts.{packet}
use app_flow.Device.Refused.{IsGoing, invalid_result, sign_refused}
use app_flow.Tests.Samples.{small_tree}
use app_flow.Tests.Signs.{known, known_key, small_proof}

-- Any other instruction is answered like the query of the version of 0.12.0; the review refuses.
abbrev refusing : Outside plain_buffer zero_hash
refusing = record {
  review = λ v m. (m, 0x69 ∷ 0x86 ∷ []);
  other = λ apdu m. (m, 0 ∷ 0 ∷ 12 ∷ 0 ∷ 0 ∷ 0x31 ∷ 0x10 ∷ 0 ∷ 4 ∷ 0x90 ∷ 0x00 ∷ []);
  line = λ statuses response. resolved response;
}

recent :
    is_old (get_version (device plain_buffer zero_hash refusing) [] (fresh zero_hash)).1 ≡ false
unfolding get_version handle_apdu parse_version compare_version
recent = refl

sign-handle_apdu_example :
    (chunks : List Chunk) × (ready : Machine plain_buffer zero_hash) × (sign_get_chunks small_index
        zero_tree wallet_path
        (of_ℕ options)
        (9 ∷ [])
        (Sign.text script_hash)
      ≡ ok chunks)
    × (ready
        ≡ process_chunks plain_buffer zero_hash
            (map packet chunks)
            (get_version (device plain_buffer zero_hash refusing) [] (fresh zero_hash)).0)
    × (ready.stored ≡ record {
      metadata = from_hex (codes "0102");
      level = 5;
      hash = from_hex (hash zero_tree);
    })
    × (sign
          (device plain_buffer zero_hash refusing)
          []
          small_index
          zero_tree
          wallet_path
          (9 ∷ [])
          (Path.number (of_ℕ options))
          (Sign.text script_hash)
          (fresh zero_hash)
        ≡ (
          (reviewed plain_buffer zero_hash refusing [] ready).0,
          (reviewed plain_buffer zero_hash refusing [] ready).1 >>= λ r. ok (answer r),
        ))
sign-handle_apdu_example =
    sign-handle_apdu plain_buffer zero_hash refusing [] small_index zero_tree wallet_path
      (of_ℕ options) (Path.number (of_ℕ options)) (9 ∷ []) script_hash serialized first_leaf
      (codes "0102") (fresh zero_hash) accepted_options wallet_written main_net (refl, refl)
      hash_found zero-IsProved short_metadata (λ s bytes. refl) (λ accepted body high low h. refl)
      recent

-- The small tree's hashes are no digests: the list of the first level is refused.
abbrev packets_before : List Chunk
packets_before =
    record { type = 0; p2 = 0; buffer = serialized }
    ∷ record { type = 1; p2 = 0; buffer = 9 ∷ [] }
    ∷ record { type = 3; p2 = 0; buffer = 1 ∷ 2 ∷ [] }
    ∷ []

abbrev first_level : Chunk
first_level = record { type = 4; p2 = 0; buffer = 0xaa ∷ [] }

abbrev packets_behind : List Chunk
packets_behind =
    record { type = 4; p2 = 0; buffer = 0xbb ∷ [] }
    ∷ record { type = 4; p2 = 0; buffer = 0xcc ∷ [] }
    ∷ record { type = 5; p2 = 0; buffer = 0xdd ∷ [] }
    ∷ []

small_packets :
    sign_get_chunks small_index small_tree wallet_path (of_ℕ options) (9 ∷ []) (Sign.text known)
    ≡ ok (packets_before ++ first_level ∷ packets_behind)
unfolding prepare_basic_chunks add_chunks
small_packets =
    sign_get_chunks_known small_index small_tree wallet_path (of_ℕ options) (9 ∷ []) known
      serialized first_leaf _ wallet_written (refl, refl) known_key small_proof

abbrev machine_before : Machine plain_buffer zero_hash
machine_before = process_chunks plain_buffer zero_hash (map packet packets_before) (fresh zero_hash)

taken_before :
    All IsGoing (verdicts plain_buffer zero_hash (map packet packets_before) (fresh zero_hash))
unfolding process_chunk start append store_tx_metadata read_uint32_le
taken_before = (refl, (refl, (refl, tt)))

refused_level :
    (process_chunk plain_buffer zero_hash 4 0 (0xaa ∷ []) machine_before).1 ≡ thrown data_invalid
unfolding process_chunk start append store_tx_metadata validate_level read_uint32_le
refused_level = refl

sign_refused_example :
    (sign
        (device plain_buffer zero_hash refusing)
        []
        small_index
        small_tree
        wallet_path
        (9 ∷ [])
        (Path.number (of_ℕ options))
        (Sign.text known)
        (fresh zero_hash)
      ≡ (
        (process_chunk plain_buffer zero_hash 4 0 (0xaa ∷ []) machine_before).0,
        ok (answer invalid_result),
      ))
    × ((process_chunk plain_buffer zero_hash 4 0 (0xaa ∷ []) machine_before).0.stored ≡ init_stored)
unfolding get_version handle_apdu
sign_refused_example =
    sign_refused plain_buffer zero_hash refusing [] small_index small_tree wallet_path
      (of_ℕ options) (Path.number (of_ℕ options)) (9 ∷ []) (Sign.text known) packets_before
      first_level packets_behind (fresh zero_hash) accepted_options recent small_packets
      (λ accepted body high low h. refl) taken_before (omega arith, omega arith) refused_level
