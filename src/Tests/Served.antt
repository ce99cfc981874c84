-- ===== src/Tests/Served.antt =====
-- A script of a manifest, from the generator over a call of `sign` to what the device shows.
use app_flow.Prelude.{
  zero, suc, ◌≢◌, inl, get_elem?, some-injective, map, ℕ, ◌≡◌, refl, ap, sym, ◌∙◌, some, List, [],
  ◌∷◌, arith, ok, All, map, ◌>>=◌,
}
use app_flow.Js.Hex.{to_hex, from_hex, hex_value, hex_digit}
use app_flow.Merkle.Tree.{Tree, Trees, hash, string, node, nil}
use app_flow.Device.Chain.{process_chunks}
use app_flow.Device.Levels.{IsDigest}
use app_flow.Device.Parse.{parse_tx_metadata}
use app_flow.Generator.RoundTrip.{shown_template}
use app_flow.Generator.Manifest.{Entry, insert, sort}
use app_flow.Tests.Devices.{first_byte, create_account, plain_buffer, fresh}
use app_flow.Tests.Generators.{create_template}
use app_flow.Js.Number.{of_ℕ}
use app_flow.Sign
use app_flow.Sign.{Chunk, LeafIndex, MerkleIndex, sign_get_chunks}
use app_flow.Device.Accepts.{IsStep, packet}
use app_flow.Generator.Index.{build_index}
use app_flow.Generator.Cut.{empty_top_level_branch_sha, cut}
use app_flow.Generator.Descend.{AllTrees-get_elem?}
use app_flow.Generator.Manifest.Places.{IsSignable}
use app_flow.Generator.Manifest.Leads.{IsAlone}
use app_flow.Generator.Manifest.Signable.{generate-shown}
use app_flow.Prelude.{false}
use app_flow.Path.{number}
use app_flow.Common.Version.{parse_version, compare_version}
use app_flow.Client.Transport.{resolved}
use app_flow.Client.Payloads.{answer, is_old}
use app_flow.Client.App.{get_version, sign}
use app_flow.Device.Chunks.{Machine}
use app_flow.Device.Handler.{Outside, handle_apdu, device}
use app_flow.Device.Session.{reviewed}
use app_flow.Generator.Manifest.Signed.{generate-sign}
use app_flow.Tests.Samples.{accepted_options}
use app_flow.Tests.Samples.{wallet_path, options, serialized, wallet_written}
use app_flow.Tests.Transactions.{main_net}
use app_flow.Tests.Trusts.{
  root_text, root_hash, entry, manifest, tree, root_bytes, generated, IsDigest-root, root_hash_back,
}

manifest-sorted : sort manifest ≡ manifest
unfolding sort insert
manifest-sorted = refl

account-IsDigest : IsDigest create_account
unfolding to_hex hex_digit from_hex hex_value
account-IsDigest = (refl, omega arith, refl)

manifest-IsSignable : All IsSignable manifest
manifest-IsSignable = ((omega arith, account-IsDigest), tt)

only_entry : (k : ℕ) (e : Entry) → get_elem? (sort manifest) k ≡ some e → e ≡ entry
unfolding sort insert
only_entry zero e h = sym (some-injective h)
only_entry (suc k) e h = absurd (ground arith)

alone : IsAlone manifest manifest create_account entry entry
alone u v (k, at_u, at_v) shared = (only_entry k u at_u, only_entry k v at_v)

root-other : root_text ≢ empty_top_level_branch_sha
unfolding to_hex hex_digit
root-other e = let first : ◌≡◌ {A = ℕ} 0x37 0x39 = ap first_byte e in absurd (omega (arith, first))

children_of : Tree → Trees
children_of (string s) = nil
children_of (node h ts) = ts

branch_hash :
    (at : LeafIndex) (n0 : Tree)
    → IsStep root_bytes tree at.i0 n0
    → hash n0 ≢ empty_top_level_branch_sha
unfolding children_of
branch_hash at n0 (_, found, _) e = root-other (
    sym (
      AllTrees-get_elem? (λ c. hash c ≡ root_text) (children_of tree) at.i0 n0
        (refl, (refl, (refl, (refl, (refl, (refl, (refl, tt))))))) found)
    ∙ e)

at_first : get_elem? (sort manifest) 0 ≡ some entry
at_first = ap (λ es. get_elem? es 0) manifest-sorted

generate-shown_example :
    (index : MerkleIndex) × (chunks : List Chunk) × (build_index tree ≡ some index)
    × (sign_get_chunks index
          (cut tree)
          wallet_path
          (of_ℕ options)
          (9 ∷ [])
          (Sign.text create_account)
        ≡ ok chunks)
    × (parse_tx_metadata
          (from_hex create_account)
          (process_chunks plain_buffer root_bytes (map packet chunks) (fresh root_bytes)).stored
        ≡ ok (shown_template create_template))
generate-shown_example =
    generate-shown root_hash root_bytes (λ s. IsDigest-root) (λ s h. ap some (sym root_hash_back))
      manifest manifest tree manifest-IsSignable manifest-IsSignable generated plain_buffer
      (fresh root_bytes) entry entry create_account wallet_path (of_ℕ options) (9 ∷ []) serialized
      (0, at_first, at_first) (inl refl) alone (λ at n0 _. branch_hash at n0) root_hash_back
      wallet_written main_net (λ s bytes. refl)

-- The review refuses, and every other instruction is answered like the version query of 0.12.0.
abbrev refusing : Outside plain_buffer root_bytes
refusing = record {
  review = λ v m. (m, 0x69 ∷ 0x86 ∷ []);
  other = λ apdu m. (m, 0 ∷ 0 ∷ 12 ∷ 0 ∷ 0 ∷ 0x31 ∷ 0x10 ∷ 0 ∷ 4 ∷ 0x90 ∷ 0x00 ∷ []);
  line = λ statuses response. resolved response;
}

recent :
    is_old (get_version (device plain_buffer root_bytes refusing) [] (fresh root_bytes)).1 ≡ false
unfolding get_version handle_apdu parse_version compare_version
recent = refl

generate-sign_example :
    (index : MerkleIndex) × (chunks : List Chunk) × (ready : Machine plain_buffer root_bytes)
    × (build_index tree ≡ some index)
    × (sign_get_chunks index
          (cut tree)
          wallet_path
          (of_ℕ options)
          (9 ∷ [])
          (Sign.text create_account)
        ≡ ok chunks)
    × (ready
        ≡ process_chunks plain_buffer root_bytes
            (map packet chunks)
            (get_version (device plain_buffer root_bytes refusing) [] (fresh root_bytes)).0)
    × (parse_tx_metadata (from_hex create_account) ready.stored
        ≡ ok (shown_template create_template))
    × (sign
          (device plain_buffer root_bytes refusing)
          []
          index
          (cut tree)
          wallet_path
          (9 ∷ [])
          (number (of_ℕ options))
          (Sign.text create_account)
          (fresh root_bytes)
        ≡ (
          (reviewed plain_buffer root_bytes refusing [] ready).0,
          (reviewed plain_buffer root_bytes refusing [] ready).1 >>= λ r. ok (answer r),
        ))
generate-sign_example =
    generate-sign root_hash root_bytes (λ s. IsDigest-root) (λ s h. ap some (sym root_hash_back))
      manifest manifest tree manifest-IsSignable manifest-IsSignable generated plain_buffer refusing
      [] (fresh root_bytes) entry entry create_account wallet_path (of_ℕ options)
      (number (of_ℕ options)) (9 ∷ []) serialized (0, at_first, at_first) (inl refl) alone
      (λ at n0 _. branch_hash at n0) root_hash_back accepted_options wallet_written main_net
      (λ s bytes. refl) (λ accepted body high low h. refl) recent
