-- ===== src/Generator/Manifest/Leads.antt =====
-- The tree and the index that are made of the manifests: where the index leads for a script's hash.
use app_flow.Prelude.{
  ℕ, zero, suc, ◌<◌, ◌≡◌, refl, ap, sym, subst, ◌∙◌, ◌⊎◌, inl, inr, Option, some, List, [], ◌∷◌,
  map, arith, Text, Bytes, All, length, get_elem?, take, ok, some-injective,
}
use app_flow.Js.Hex.{to_hex, from_hex, from_hex-to_hex_whole}
use app_flow.Merkle.Tree.{Tree}
use app_flow.Sign.{LeafIndex, MerkleIndex, leaf, lookup}
use app_flow.Device.Levels.{IsDigest}
use app_flow.Device.Accepts.{IsProved}
use app_flow.Device.Honest.{IsWhole}
use app_flow.Generator.Encode.{templates_to_metadata}
use app_flow.Generator.Levels.{IsHex, get_elem?-map}
use app_flow.Generator.Index.{
  number_of_hashes, key, template_at, build_index, IsKeyOf, build_index-lookup,
}
use app_flow.Generator.Complete.{build_index-IsFound}
use app_flow.Generator.Descend.{IsWhole-IsProved, IsProved-template_at, build_index_total}
use app_flow.Generator.Proofs.{position, InTree, length-fill, build-IsProved}
use app_flow.Generator.Whole.{get_elem?-All}
use app_flow.Generator.Octets.{templates_to_metadata-All-IsByte}
use app_flow.Generator.Manifest.{Entry, sort, generate}
use app_flow.Generator.Manifest.Pairs.{
  IsShown, Pair, IsOf, IsLeafText, sort-All, fill-eq, encode_all-IsOf, fill-IsLeafText,
}
use app_flow.Generator.Manifest.Steps.{IsMade, generate-IsMade, generate-IsWhole}
use app_flow.Generator.Manifest.Places.{
  IsSignable, HasKey, IsHashOf, signable-IsShown, encode_all-get_elem?, get_elem?-front,
  get_elem?-lt, place, place-InTree, position-place, key_of_pair, pair_of_key,
}

get_elem?-some :
    {A : Type 0} (xs : List A) (k : ℕ) → k < length xs → (x : A) × (get_elem? xs k ≡ some x)
get_elem?-some [] k h = absurd (omega arith)
get_elem?-some (x ∷ xs) zero h = (x, refl)
get_elem?-some (x ∷ xs) (suc k) h = get_elem?-some xs k (omega arith)

no_hashes : number_of_hashes (to_hex []) ≡ 0
unfolding number_of_hashes to_hex
no_hashes = refl

-- No other pair of templates has a hash that starts like the script's.
abbrev pub IsAlone : List Entry → List Entry → Text → Entry → Entry → Type 0
IsAlone testnet mainnet script_hash t m =
    (u v : Entry)
    → Pair (sort testnet) (sort mainnet) u v
    → HasKey script_hash u v
    → (u ≡ t) × (v ≡ m)

pub sort-IsSignable :
    (es : List Entry)
    → All IsSignable es
    → (k : ℕ) (e : Entry) → get_elem? (sort es) k ≡ some e
    → IsSignable e
sort-IsSignable es h k e found =
    get_elem?-All IsSignable (sort es) k e (sort-All IsSignable es h) found

-- `sha256` is the generator's hash of hexadecimal text, `sha256_bytes` the device's of bytes.
module _ (sha256 : Text → Text) (sha256_bytes : Bytes → Option Bytes)
    (digests : (s : Text) → IsDigest (sha256 s))
    (agree : (s : Text) → IsHex s → sha256_bytes (from_hex s) ≡ some (from_hex (sha256 s)))
    (testnet mainnet : List Entry) (tree : Tree) (ht : All IsSignable testnet)
    (hm : All IsSignable mainnet)
    (generated : generate sha256 testnet mainnet ≡ ok (some tree)) where
  abbrev IsLeaf : Text → Type 0
  IsLeaf = IsLeafText (sort testnet) (sort mainnet)

  whole : IsWhole sha256_bytes IsLeaf 4 tree
  whole =
      generate-IsWhole sha256 sha256_bytes digests agree testnet mainnet tree
        (signable-IsShown testnet ht) (signable-IsShown mainnet hm) generated

  -- The leaf at an index of the tree has the text at its position, if that is hexadecimal.
  stands :
      (metadata : List Bytes) (full : List Text) (at : LeafIndex) (text : Text)
      → IsMade sha256 testnet mainnet tree metadata full
      → InTree at
      → get_elem? full (position at) ≡ some text
      → IsHex text
      → IsProved sha256_bytes tree at text
  stands metadata full at text (encoded, filled, built) inside found hex =
      let (t, again, proved) =
        build-IsProved sha256 sha256_bytes digests agree (map to_hex metadata) full at text filled
          inside found hex in
      subst (λ x. IsProved sha256_bytes x at text) (some-injective (sym again ∙ built)) proved

  pair_stands :
      (k : ℕ) (t m : Entry)
      → get_elem? (sort testnet) k ≡ some t
      → get_elem? (sort mainnet) k ≡ some m
      → (bytes : Bytes) × (templates_to_metadata t.template m.template ≡ ok bytes)
        × InTree (place k)
        × (template_at tree (place k) ≡ some (to_hex bytes))
  pair_stands k t m at_t at_m =
      let (metadata, full, (encoded, filled, built)) =
        generate-IsMade sha256 testnet mainnet tree generated in
      let (bytes, listed, made) =
        encode_all-get_elem? (sort testnet) (sort mainnet) metadata k t m encoded at_t at_m in
      let found : get_elem? full k ≡ some (to_hex bytes) =
        ap (λ l. get_elem? l k) (fill-eq (map to_hex metadata) full filled)
        ∙ get_elem?-front (map to_hex metadata) _ k (to_hex bytes)
            (get_elem?-map to_hex metadata k listed) in
      let size = length-fill (map to_hex metadata) full filled in
      let inside = place-InTree k (omega (arith, get_elem?-lt full k (to_hex bytes) found, size)) in
      let (readable, _) =
        get_elem?-All IsSignable (sort mainnet) k m (sort-All IsSignable mainnet hm) at_m in
      let octets = templates_to_metadata-All-IsByte t.template m.template bytes readable made in
      let proved =
        stands metadata full (place k) (to_hex bytes) (encoded, filled, built) inside
          (ap (get_elem? full) (position-place k) ∙ found)
          (ap to_hex (from_hex-to_hex_whole bytes octets)) in
      (bytes, made, inside, IsProved-template_at sha256_bytes tree (place k) (to_hex bytes) proved)

  -- The loops that build the index throw nothing.
  pub generate-build_index : (index : MerkleIndex) × (build_index tree ≡ some index)
  generate-build_index =
      let (metadata, full, (encoded, filled, built)) =
        generate-IsMade sha256 testnet mainnet tree generated in
      let of =
        encode_all-IsOf (sort testnet) (sort mainnet) metadata
          (sort-All IsShown testnet (signable-IsShown testnet ht))
          (sort-All IsShown mainnet (signable-IsShown mainnet hm)) encoded in
      let texts = fill-IsLeafText (sort testnet) (sort mainnet) metadata full of filled in
      let size = length-fill (map to_hex metadata) full filled in
      build_index_total tree (λ at inside.
        let (text, found) = get_elem?-some full (position at) (omega (arith, size)) in
        let (_, hex) = get_elem?-All IsLeaf full (position at) text texts found in
        (
          text,
          IsProved-template_at sha256_bytes tree at text
              (stands metadata full at text (encoded, filled, built) inside found hex),
        ))

  hash_key : (script_hash : Text) (t m : Entry) → IsHashOf script_hash t m → HasKey script_hash t m
  hash_key script_hash t m (inl e) = inl (ap (take 16) e)
  hash_key script_hash t m (inr e) = inr (ap (take 16) e)

  its_pair :
      (text : Text) (hash_no : ℕ) (script_hash : Text) (t m : Entry)
      → (from_hex text ≡ []) ⊎ IsOf (sort testnet) (sort mainnet) (from_hex text)
      → IsHex text
      → hash_no < number_of_hashes text
      → key text hash_no ≡ take 16 script_hash
      → IsAlone testnet mainnet script_hash t m
      → templates_to_metadata t.template m.template ≡ ok (from_hex text)
  its_pair text hash_no script_hash t m (inl nothing) hex small same alone =
      absurd (omega (arith, ap number_of_hashes (sym hex ∙ ap to_hex nothing), no_hashes))
  its_pair text hash_no script_hash t m (inr (u, v, (k, at_u, at_v), hu, hv, made)) hex small same
        alone =
      let shared =
        pair_of_key u v (from_hex text) (take 16 script_hash) hash_no
          (sort-IsSignable testnet ht k u at_u) (sort-IsSignable mainnet hm k v at_v) made
          (subst (λ s. hash_no < number_of_hashes s) (sym hex) small)
          (ap (λ s. key s hash_no) hex ∙ same) in
      let (same_t, same_m) = alone u v (k, at_u, at_v) shared in
      subst (λ x. templates_to_metadata x.template m.template ≡ ok (from_hex text)) same_t
        (subst (λ x. templates_to_metadata u.template x.template ≡ ok (from_hex text)) same_m made)

  -- Where the index leads, the metadata of the one pair stands, with a proof.
  pub leads :
      (index : MerkleIndex) (script_hash : Text) (t m : Entry)
      → build_index tree ≡ some index
      → Pair (sort testnet) (sort mainnet) t m
      → IsHashOf script_hash t m
      → IsAlone testnet mainnet script_hash t m
      → (at : LeafIndex) × (text : Text) × (lookup (take 16 script_hash) index ≡ leaf at)
        × IsKeyOf tree (take 16 script_hash) at
        × IsProved sha256_bytes tree at text
        × (templates_to_metadata t.template m.template ≡ ok (from_hex text))
  leads index script_hash t m built (k, at_t, at_m) of alone =
      let (bytes, made, inside, here) = pair_stands k t m at_t at_m in
      let (hash_no, small, same) =
        key_of_pair t m bytes (take 16 script_hash) (sort-IsSignable testnet ht k t at_t)
          (sort-IsSignable mainnet hm k m at_m) made (hash_key script_hash t m of) in
      let (at, found) =
        build_index-IsFound tree index (take 16 script_hash) (place k) built inside
          (to_hex bytes, hash_no, here, small, same) in
      let keyed = build_index-lookup tree index (take 16 script_hash) at built found in
      let (text, which, there, low, starts) = keyed in
      let (proved, (of_pair, hex)) =
        IsWhole-IsProved sha256_bytes IsLeaf tree at text whole there in
      (
        at,
        text,
        found,
        keyed,
        proved,
        its_pair text which script_hash t m of_pair hex low starts alone,
      )
