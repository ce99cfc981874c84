-- ===== src/Generator/Manifest/Trust.antt =====
-- From the manifests to what the device shows: whatever it is sent, it shows a template of theirs.
use app_flow.Prelude.{
  ℕ, zero, suc, ◌<◌, ◌≡◌, ◌≢◌, ap, sym, subst, ◌∙◌, ◌++◌, ◌⊎◌, inl, inr, true, Option, some, List,
  [], ◌∷◌, arith, Text, Bytes, All, length, ok, ok-injective, Bool-cases, take, take-append_eq,
  drop-append_eq, get_or,
}
use app_flow.Js.Hex.{from_hex}
use app_flow.Merkle.Tree.{Tree, hash}
use app_flow.Device.Stored.{Stored, init_stored, merkle_tree_root, is_open}
use app_flow.Device.Levels.{IsDigest}
use app_flow.Device.Chunks.{Buffering, Machine}
use app_flow.Device.Chain.{SentChain, IsSent, process_chunks, process_chunks-open-IsSent}
use app_flow.Device.Honest.{Collision, IsHashedIn, IsWhole-SentChain}
use app_flow.Device.Parse.{ParsedMetadata, parse_tx_metadata}
use app_flow.Device.Parse.ScriptHash.{At}
use app_flow.Device.Parse.Script.{Lists, parse_tx_metadata-Lists}
use app_flow.Generator.Levels.{IsHex}
use app_flow.Generator.Keys.{metadata_parts}
use app_flow.Generator.RoundTrip.{shown_template, parse_tx_metadata-templates_to_metadata}
use app_flow.Generator.Manifest.{Entry, sort, generate}
use app_flow.Generator.Manifest.Steps.{generate-IsWhole}
use app_flow.Generator.Manifest.Pairs.{IsShown, Pair, IsOf, IsLeafText}

-- Of metadata that counts two hashes, one of the two is listed.
module _ (a b rest script_hash : Bytes) (size_a : length a ≡ 32) (size_b : length b ≡ 32) where
  listed_place :
      (k : ℕ)
      → k < 2
      → At script_hash (2 ∷ (a ++ (b ++ rest))) k
      → (script_hash ≡ a) ⊎ (script_hash ≡ b)
  listed_place zero low found = inl (sym found ∙ take-append_eq 32 a (b ++ rest) size_a)
  listed_place (suc zero) low found = inr (
      sym found
      ∙ ap (take 32) (drop-append_eq 32 a (b ++ rest) size_a)
      ∙ take-append_eq 32 b rest size_b)
  listed_place (suc (suc k)) low found = absurd (omega arith)

  listed_hash : Lists (2 ∷ (a ++ (b ++ rest))) script_hash → (script_hash ≡ a) ⊎ (script_hash ≡ b)
  listed_hash (n, behind, same, few, (k, low, found)) =
      let count : 2 ≡ n = ap (λ t. get_or t 0 0) same in listed_place k (omega (arith, count)) found

parse-is_open :
    (script_hash : Bytes) (s : Stored) (parsed : ParsedMetadata)
    → parse_tx_metadata script_hash s ≡ ok parsed
    → is_open s ≡ true
unfolding parse_tx_metadata
parse-is_open script_hash s parsed h = elim (Bool-cases (is_open s)) [
  | inl opened ↦ opened
  | inr shut ↦ absurd (ground (arith, shut, h))
]

parse_nothing :
    (script_hash : Bytes) (s : Stored) (parsed : ParsedMetadata)
    → length script_hash ≡ 32
    → s.metadata ≡ []
    → parse_tx_metadata script_hash s ≢ ok parsed
parse_nothing script_hash s parsed size nothing h =
    let (_, lists) =
      parse_tx_metadata-Lists script_hash s parsed size (omega (arith, ap length nothing)) h in
    let (n, rest, same, _, _) = lists in absurd (omega (arith, ap length (sym nothing ∙ same)))

-- What is shown of a pair of templates whose metadata is in store.
stored_template :
    (testnet mainnet : List Entry) (script_hash : Bytes) (s : Stored) (parsed : ParsedMetadata)
    → length script_hash ≡ 32
    → IsOf testnet mainnet s.metadata
    → parse_tx_metadata script_hash s ≡ ok parsed
    → (t m : Entry) × Pair testnet mainnet t m
      × ((script_hash ≡ from_hex t.template.hash) ⊎ (script_hash ≡ from_hex m.template.hash))
      × (parsed ≡ shown_template m.template)
stored_template testnet mainnet script_hash s parsed size (t, m, at, ht, hm, made) h =
    let (rest, same, small) = metadata_parts t.template m.template s.metadata made in
    let (opened, lists) = parse_tx_metadata-Lists script_hash s parsed size small h in
    let listed =
      listed_hash (from_hex t.template.hash) (from_hex m.template.hash) rest script_hash ht.1 hm.1
        (subst (λ b. Lists b script_hash) same lists) in
    (
      t,
      m,
      at,
      listed,
      ok-injective (
          sym h
          ∙ parse_tx_metadata-templates_to_metadata t.template m.template script_hash s made hm.0
              ht.1 hm.1 listed opened),
    )

-- `sha256` is the generator's hash of hexadecimal text, `sha256_bytes` the device's of bytes.
module _ (sha256 : Text → Text) (sha256_bytes : Bytes → Option Bytes)
    (digests : (s : Text) → IsDigest (sha256 s))
    (agree : (s : Text) → IsHex s → sha256_bytes (from_hex s) ≡ some (from_hex (sha256 s))) where
  -- Whatever packets a device with an empty store is sent, and whatever it then shows for a script's
  -- hash: if the root that it knows is the hash of the tree that the generator builds of two manifests,
  -- then a packet's body has the hash of other bytes, which the hash of a node of that tree is made of,
  -- or the script's hash is that of one of the two templates at a place of the sorted manifests, and the
  -- main net's template is what is shown. The templates are readable and their hashes have 32 bytes,
  -- like the script's; the generator's hash gives 32 bytes in hexadecimal, and agrees with the device's
  -- on hexadecimal text.
  pub process_chunks-shown :
      (b : Buffering) (machine : Machine b sha256_bytes) (testnet mainnet : List Entry)
      (tree : Tree) (packets : List (ℕ × ℕ × Bytes)) (script_hash : Bytes) (parsed : ParsedMetadata)
      → machine.stored ≡ init_stored
      → All IsShown testnet
      → All IsShown mainnet
      → generate sha256 testnet mainnet ≡ ok (some tree)
      → from_hex (hash tree) ≡ merkle_tree_root
      → length script_hash ≡ 32
      → parse_tx_metadata script_hash (process_chunks b sha256_bytes packets machine).stored
        ≡ ok parsed
      → Collision sha256_bytes (IsHashedIn tree) (IsSent packets)
        ⊎ ((t m : Entry) × Pair (sort testnet) (sort mainnet) t m
            × ((script_hash ≡ from_hex t.template.hash) ⊎ (script_hash ≡ from_hex m.template.hash))
            × (parsed ≡ shown_template m.template))
  process_chunks-shown b machine testnet mainnet tree packets script_hash parsed empty ht hm made
        root size h =
      let s = (process_chunks b sha256_bytes packets machine).stored in
      let chain =
        process_chunks-open-IsSent b sha256_bytes packets machine empty
          (parse-is_open script_hash s parsed h) in
      let whole =
        generate-IsWhole sha256 sha256_bytes digests agree testnet mainnet tree ht hm made in
      elim (IsWhole-SentChain sha256_bytes (IsLeafText (sort testnet) (sort mainnet))
        (IsSent packets) 4 tree s.metadata whole
        (subst (SentChain sha256_bytes (IsSent packets) s.metadata 5) (sym root) chain)) [
          | inl collision ↦ inl collision
          | inr (text, (inl nothing, _), same) ↦
              absurd (parse_nothing script_hash s parsed size (sym same ∙ nothing) h)
          | inr (text, (inr of, _), same) ↦ inr (
              stored_template (sort testnet) (sort mainnet) script_hash s parsed size
                (subst (IsOf (sort testnet) (sort mainnet)) same of) h)
        ]
