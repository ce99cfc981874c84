-- ===== src/Generator/Manifest/Signable.antt =====
-- Every template of the manifests can be signed: from the manifests over the client to the device.
use app_flow.Prelude.{
  ◌≡◌, ◌≢◌, refl, ap, ◌∙◌, ◌++◌, ◌⊎◌, inl, inr, true, Option, some, List, map, Text, Bytes, All,
  length, take, ok,
}
use app_flow.Js.Hex.{from_hex}
use app_flow.Js.Number.{JsNumber}
use app_flow.Merkle.Tree.{Tree, string, node, hash}
use app_flow.Path.{PathArg, serialize_path}
use app_flow.Sign
use app_flow.Sign.{
  Chunk, LeafIndex, MerkleIndex, leaf, lookup, prepare_basic_chunks, sign_get_chunks,
}
use app_flow.Device.Stored.{Stored, merkle_tree_root}
use app_flow.Device.Levels.{IsDigest}
use app_flow.Device.Chunks.{Buffering, Machine, is_known_net}
use app_flow.Device.Chain.{process_chunks}
use app_flow.Device.Accepts.{IsStep, IsProved, packet}
use app_flow.Sign.Workflows.{IsHash}
use app_flow.Prelude.{◌≤◌}
use app_flow.Device.Parse.{parse_tx_metadata}
use app_flow.Device.Transaction.{Takes, sign_get_chunks-process_chunks}
use app_flow.Generator.Levels.{IsHex}
use app_flow.Generator.Keys.{templates_to_metadata-key, length-digest}
use app_flow.Generator.Index.{build_index, IsKeyOf}
use app_flow.Generator.Cut.{cut, cut-IsProved, empty_top_level_branch_sha}
use app_flow.Generator.RoundTrip.{shown_template, parse_tx_metadata-templates_to_metadata}
use app_flow.Generator.Manifest.{Entry, sort, generate}
use app_flow.Generator.Manifest.Pairs.{Pair}
use app_flow.Generator.Manifest.Places.{IsSignable, IsHashOf, IsHash-digest}
use app_flow.Generator.Manifest.Leads.{sort-IsSignable, generate-build_index, IsAlone, leads}

length-hash :
    (script_hash : Text) (t m : Entry)
    → IsDigest t.template.hash
    → IsDigest m.template.hash
    → IsHashOf script_hash t m
    → length script_hash ≡ 64
length-hash script_hash t m ht hm (inl e) = ap length e ∙ length-digest t.template.hash ht
length-hash script_hash t m ht hm (inr e) = ap length e ∙ length-digest m.template.hash hm

bytes_of :
    (script_hash : Text) (t m : Entry)
    → IsHashOf script_hash t m
    → (from_hex script_hash ≡ from_hex t.template.hash)
      ⊎ (from_hex script_hash ≡ from_hex m.template.hash)
bytes_of script_hash t m (inl e) = inl (ap from_hex e)
bytes_of script_hash t m (inr e) = inr (ap from_hex e)

cut-hash : (t : Tree) → hash (cut t) ≡ hash t
cut-hash (string s) = refl
cut-hash (node h ts) = refl

-- `sha256` is the generator's hash of hexadecimal text, `sha256_bytes` the device's of bytes.
module _ (sha256 : Text → Text) (sha256_bytes : Bytes → Option Bytes)
    (digests : (s : Text) → IsDigest (sha256 s))
    (agree : (s : Text) → IsHex s → sha256_bytes (from_hex s) ≡ some (from_hex (sha256 s)))
    (testnet mainnet : List Entry) (tree : Tree) (ht : All IsSignable testnet)
    (hm : All IsSignable mainnet)
    (generated : generate sha256 testnet mainnet ≡ ok (some tree)) where
  -- What the client and the device need of a script's leaf in the cut tree.
  pub record IsServed (script_hash : Text) (m : Entry) : Type 0 where
    pub index : MerkleIndex
    pub at : LeafIndex
    pub text : Text
    pub built : build_index tree ≡ some index
    pub plain : IsHash script_hash
    pub found : lookup (take 16 script_hash) index ≡ leaf at
    pub proved : IsProved sha256_bytes (cut tree) at text
    pub fits : length (from_hex text) ≤ 255
    pub shown :
        parse_tx_metadata
          (from_hex script_hash)
          (record { metadata = from_hex text; level = 5; hash = from_hex (hash (cut tree)) })
        ≡ ok (shown_template m.template)

  pub generate-IsServed :
      (t m : Entry) (script_hash : Text)
      → Pair (sort testnet) (sort mainnet) t m
      → IsHashOf script_hash t m
      → IsAlone testnet mainnet script_hash t m
      → ((at : LeafIndex) (n0 : Tree)
          → IsKeyOf tree (take 16 script_hash) at
          → IsStep sha256_bytes tree at.i0 n0
          → hash n0 ≢ empty_top_level_branch_sha)
      → from_hex (hash tree) ≡ merkle_tree_root
      → IsServed script_hash m
  generate-IsServed t m script_hash (k, at_t, at_m) of alone kept root =
      let (readable_t, digest_t) = sort-IsSignable testnet ht k t at_t in
      let (readable_m, digest_m) = sort-IsSignable mainnet hm k m at_m in
      let (index, built) =
        generate-build_index sha256 sha256_bytes digests agree testnet mainnet tree ht hm
          generated in
      let (at, text, found, keyed, proved, made) =
        leads sha256 sha256_bytes digests agree testnet mainnet tree ht hm generated index
          script_hash t m built (k, at_t, at_m) of alone in
      let (fits, _, _, _) =
        templates_to_metadata-key t.template m.template (from_hex text) made digest_t digest_m in
      let in_cut =
        cut-IsProved sha256_bytes tree at text proved (λ n0 step. kept at n0 keyed step) in
      let plain = IsHash-digest script_hash (length-hash script_hash t m digest_t digest_m of) in
      let root_after = ap from_hex (cut-hash tree) ∙ root in
      let opened : Stored = record {
        metadata = from_hex text;
        level = 5;
        hash = merkle_tree_root;
      } in
      record {
        index = index;
        at = at;
        text = text;
        built = built;
        plain = plain;
        found = found;
        proved = in_cut;
        fits = fits;
        shown =
            ap
              (λ (h : Bytes).
                parse_tx_metadata (from_hex script_hash)
                  (record { metadata = from_hex text; level = 5; hash = h }))
              root_after
            ∙ parse_tx_metadata-templates_to_metadata t.template m.template (from_hex script_hash)
                opened made readable_m digest_t.2 digest_m.2 (bytes_of script_hash t m of) refl;
      }

  -- For each pair of templates of the manifests, whose hash no other pair's starts like, and either
  -- template's hash: the index is built, the client that has it and the cut tree makes packets for a
  -- valid path of a known net, and after them the device shows the main net's template of the pair, if
  -- it knows the tree's hash as the root and its buffer takes the transaction; whatever it was doing
  -- before. The templates are readable and their hashes print 32 bytes; no branch on the way to the
  -- script's leaf has the hash of an empty one.
  pub generate-shown :
      (b : Buffering) (machine : Machine b sha256_bytes) (t m : Entry) (script_hash : Text)
      (path : PathArg) (options : JsNumber) (message serialized : Bytes)
      → Pair (sort testnet) (sort mainnet) t m
      → IsHashOf script_hash t m
      → IsAlone testnet mainnet script_hash t m
      → ((at : LeafIndex) (n0 : Tree)
          → IsKeyOf tree (take 16 script_hash) at
          → IsStep sha256_bytes tree at.i0 n0
          → hash n0 ≢ empty_top_level_branch_sha)
      → from_hex (hash tree) ≡ merkle_tree_root
      → serialize_path path options ≡ ok serialized
      → is_known_net (take 20 serialized) ≡ true
      → Takes b
      → (index : MerkleIndex) × (chunks : List Chunk) × (build_index tree ≡ some index)
        × (sign_get_chunks index (cut tree) path options message (Sign.text script_hash)
            ≡ ok chunks)
        × (parse_tx_metadata
              (from_hex script_hash)
              (process_chunks b sha256_bytes (map packet chunks) machine).stored
            ≡ ok (shown_template m.template))
  generate-shown b machine t m script_hash path options message serialized pair of alone kept root
        hs net takes =
      let served = generate-IsServed t m script_hash pair of alone kept root in
      let (proof, sent, _, after) =
        sign_get_chunks-process_chunks b sha256_bytes served.index (cut tree) path options message
          script_hash serialized served.at served.text machine hs net served.plain served.found
          served.proved served.fits takes in
      (
        served.index,
        prepare_basic_chunks serialized message ++ proof,
        served.built,
        sent,
        ap (parse_tx_metadata (from_hex script_hash)) after ∙ served.shown,
      )
