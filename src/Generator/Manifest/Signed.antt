-- ===== src/Generator/Manifest/Signed.antt =====
-- A call of `FlowApp.sign` with what the generator made, and a device that knows the generator's root.
use app_flow.Prelude.{
  ◌≡◌, ◌≢◌, ap, ◌∙◌, true, false, Option, some, List, Text, Bytes, All, take, ok, ◌>>=◌,
}
use app_flow.Js.Hex.{from_hex}
use app_flow.Js.Number.{JsNumber}
use app_flow.Merkle.Tree.{Tree, hash}
use app_flow.Path.{PathArg, OptionsArg, serialize_path, validate_crypto_options}
use app_flow.Sign
use app_flow.Prelude.{map}
use app_flow.Device.Chain.{process_chunks}
use app_flow.Sign.{Chunk, sign_get_chunks, LeafIndex, MerkleIndex}
use app_flow.Client.Payloads.{answer, is_old}
use app_flow.Client.App.{get_version, sign}
use app_flow.Device.Stored.{merkle_tree_root}
use app_flow.Device.Levels.{IsDigest}
use app_flow.Device.Chunks.{Buffering, Machine, is_known_net}
use app_flow.Device.Accepts.{IsStep, packet}
use app_flow.Device.Parse.{parse_tx_metadata}
use app_flow.Device.Transaction.{Takes}
use app_flow.Device.Handler.{Outside, device}
use app_flow.Device.Session.{Delivers, reviewed, sign-handle_apdu}
use app_flow.Generator.Levels.{IsHex}
use app_flow.Generator.Index.{build_index, IsKeyOf}
use app_flow.Generator.Cut.{cut, empty_top_level_branch_sha}
use app_flow.Generator.RoundTrip.{shown_template}
use app_flow.Generator.Manifest.{Entry, sort, generate}
use app_flow.Generator.Manifest.Pairs.{Pair}
use app_flow.Generator.Manifest.Places.{IsSignable, IsHashOf}
use app_flow.Generator.Manifest.Leads.{IsAlone}
use app_flow.Generator.Manifest.Signable.{generate-IsServed}

module _ (sha256 : Text → Text) (sha256_bytes : Bytes → Option Bytes)
    (digests : (s : Text) → IsDigest (sha256 s))
    (agree : (s : Text) → IsHex s → sha256_bytes (from_hex s) ≡ some (from_hex (sha256 s)))
    (testnet mainnet : List Entry) (tree : Tree) (ht : All IsSignable testnet)
    (hm : All IsSignable mainnet) (generated : generate sha256 testnet mainnet ≡ ok (some tree))
    (b : Buffering) (outside : Outside b sha256_bytes) (engine_text : Text) where
  -- For each pair of templates of two signable manifests, whose hash no other pair's starts like, and
  -- either template's hash: a call of `sign` with the generator's index and cut tree, valid options and a
  -- valid path of a known net, to a device that is recent enough and knows the tree's hash as its root,
  -- brings the device all packets that `signGetChunks` makes, in order, has it review a transaction whose
  -- metadata it shows as the main net's template of the pair, and resolves to what is made of the
  -- review's response. No branch on the way to the script's leaf has the hash of an empty one, the line
  -- resolves on an accepted status word, and the device's buffer has room.
  pub generate-sign :
      (m : Machine b sha256_bytes) (t e : Entry) (script_hash : Text) (path : PathArg)
      (options : JsNumber) (crypto_options : OptionsArg) (message serialized : Bytes)
      → Pair (sort testnet) (sort mainnet) t e
      → IsHashOf script_hash t e
      → IsAlone testnet mainnet script_hash t e
      → ((at : LeafIndex) (n0 : Tree)
          → IsKeyOf tree (take 16 script_hash) at
          → IsStep sha256_bytes tree at.i0 n0
          → hash n0 ≢ empty_top_level_branch_sha)
      → from_hex (hash tree) ≡ merkle_tree_root
      → validate_crypto_options crypto_options ≡ ok options
      → serialize_path path options ≡ ok serialized
      → is_known_net (take 20 serialized) ≡ true
      → Takes b
      → Delivers outside.line
      → is_old (get_version (device b sha256_bytes outside) engine_text m).1 ≡ false
      → (index : MerkleIndex) × (chunks : List Chunk) × (ready : Machine b sha256_bytes)
        × (build_index tree ≡ some index)
        × (sign_get_chunks index (cut tree) path options message (Sign.text script_hash)
            ≡ ok chunks)
        × (ready
            ≡ process_chunks b sha256_bytes
                (map packet chunks)
                (get_version (device b sha256_bytes outside) engine_text m).0)
        × (parse_tx_metadata (from_hex script_hash) ready.stored ≡ ok (shown_template e.template))
        × (sign
              (device b sha256_bytes outside)
              engine_text
              index
              (cut tree)
              path
              message
              crypto_options
              (Sign.text script_hash)
              m
            ≡ (
              (reviewed b sha256_bytes outside engine_text ready).0,
              (reviewed b sha256_bytes outside engine_text ready).1 >>= λ r. ok (answer r),
            ))
  generate-sign m t e script_hash path options crypto_options message serialized pair of alone kept
        root hv hs net takes delivers recent =
      let served =
        generate-IsServed sha256 sha256_bytes digests agree testnet mainnet tree ht hm generated t e
          script_hash pair of alone kept root in
      let (chunks, ready, made, reached, stored, signs) =
        sign-handle_apdu b sha256_bytes outside engine_text served.index (cut tree) path options
          crypto_options message script_hash serialized served.at served.text m hv hs net
          served.plain served.found served.proved served.fits takes delivers recent in
      (
        served.index,
        chunks,
        ready,
        served.built,
        made,
        reached,
        ap (parse_tx_metadata (from_hex script_hash)) stored ∙ served.shown,
        signs,
      )
