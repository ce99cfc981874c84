-- ===== src/Generator/Manifest/Steps.antt =====
-- The steps of `generate`, and what its tree holds.
use app_flow.Prelude.{
  ◌≡◌, refl, Option, none, some, List, map, arith, Text, Bytes, All, All-imp, Result, ok, err,
  >>=-eq-ok, ok-injective,
}
use app_flow.Js.Hex.{to_hex, from_hex}
use app_flow.Merkle.Tree.{Tree}
use app_flow.Device.Levels.{IsDigest}
use app_flow.Device.Honest.{IsWhole}
use app_flow.Generator.Build.{fill, build}
use app_flow.Generator.Levels.{IsHex}
use app_flow.Generator.Manifest.{
  Entry, ManifestError, invalid_length, sort, encode_all, read_manifest, generate,
}
use app_flow.Generator.Whole.{build-IsWhole}
use app_flow.Generator.Manifest.Pairs.{
  IsShown, IsLeafText, sort-All, encode_all-IsOf, fill-IsLeafText,
}

filled_cases :
    (sha256 : Text → Text) (filled : Option (List Text)) (t : Tree)
    → Path
        (Result ManifestError (Option Tree))
        (elim filled [ none ↦ err invalid_length | some full ↦ ok (build sha256 full) ])
        (ok (some t))
    → (full : List Text) × (filled ≡ some full) × (build sha256 full ≡ some t)
filled_cases sha256 none t h = absurd (ground arith)
filled_cases sha256 (some full) t h = (full, refl, ok-injective h)

read_manifest-encode_all :
    (testnet mainnet : List Entry) (metadata : List Bytes)
    → read_manifest testnet mainnet ≡ ok metadata
    → encode_all (sort testnet) (sort mainnet) ≡ ok metadata
unfolding read_manifest
read_manifest-encode_all testnet mainnet metadata h = ground arith

-- What a run of `generate` that ends with a tree has made on the way.
abbrev pub IsMade : (Text → Text) → List Entry → List Entry → Tree → List Bytes → List Text → Type 0
IsMade sha256 testnet mainnet t metadata full =
    (encode_all (sort testnet) (sort mainnet) ≡ ok metadata)
    × (fill (map to_hex metadata) ≡ some full)
    × (build sha256 full ≡ some t)

pub generate-IsMade :
    (sha256 : Text → Text) (testnet mainnet : List Entry) (t : Tree)
    → generate sha256 testnet mainnet ≡ ok (some t)
    → (metadata : List Bytes) × (full : List Text) × IsMade sha256 testnet mainnet t metadata full
unfolding generate
generate-IsMade sha256 testnet mainnet t e =
    let (metadata, e1, f1) = >>=-eq-ok (read_manifest testnet mainnet) _ e in
    let (full, filled, built) = filled_cases sha256 (fill (map to_hex metadata)) t f1 in
    (metadata, full, (read_manifest-encode_all testnet mainnet metadata e1, filled, built))

-- `sha256` is the generator's hash of hexadecimal text, `sha256_bytes` the device's of bytes.
module _ (sha256 : Text → Text) (sha256_bytes : Bytes → Option Bytes)
    (digests : (s : Text) → IsDigest (sha256 s))
    (agree : (s : Text) → IsHex s → sha256_bytes (from_hex s) ≡ some (from_hex (sha256 s))) where
  -- Each hash is right, and each leaf holds nothing or the metadata of a pair of templates.
  pub generate-IsWhole :
      (testnet mainnet : List Entry) (t : Tree)
      → All IsShown testnet
      → All IsShown mainnet
      → generate sha256 testnet mainnet ≡ ok (some t)
      → IsWhole sha256_bytes (IsLeafText (sort testnet) (sort mainnet)) 4 t
  generate-IsWhole testnet mainnet t ht hm e =
      let (metadata, full, (encoded, filled, built)) = generate-IsMade sha256 testnet mainnet t e in
      let of =
        encode_all-IsOf (sort testnet) (sort mainnet) metadata (sort-All IsShown testnet ht)
          (sort-All IsShown mainnet hm) encoded in
      let texts = fill-IsLeafText (sort testnet) (sort mainnet) metadata full of filled in
      let P = IsLeafText (sort testnet) (sort mainnet) in
      build-IsWhole sha256 sha256_bytes digests agree P full t
        (All-imp P (λ s. P s × IsHex s) (λ s h. (h, h.1)) full texts) built
