-- ===== src/Generator/Manifest.antt =====
-- transaction_metadata/tree/index.js, `readManifest`: two manifests as a list of metadata, and the tree
-- that is built of it. A manifest is what `JSON.parse` gives.
pub mod Pairs
pub mod Steps
pub mod Places
pub mod Leads
pub mod Signable
pub mod Signed
pub mod Trust
use app_flow.Prelude.{
  ℕ, Bool, true, false, ◌&&◌, ◌||◌, Option, none, some, List, [], ◌∷◌, map, ltb, ◌==◌,
  if◌then◌else◌, Text, Bytes, length, Result, ok, err, ◌>>=◌,
}
use app_flow.Js.Hex.{to_hex}
use app_flow.Merkle.Tree.{Tree}
use app_flow.Generator.Build.{fill, build}
use app_flow.Generator.Encode.{Template, EncodeError, templates_to_metadata}

pub record Entry : Type 0 where
  pub id : Text
  pub template : Template

-- What is thrown. `missing_template` is the `TypeError` of a member of `undefined`, `invalid_length`
-- the `RangeError` of `Array`.
pub data ManifestError : Type 0 where
  missing_template invalid_length : ManifestError
  not_encoded : EncodeError → ManifestError

-- `<` on strings.
unfoldable pub text_lt : Text → Text → Bool
text_lt s [] = false
text_lt [] (b ∷ t) = true
text_lt (a ∷ s) (b ∷ t) = ltb a b || (a == b && text_lt s t)

-- `sort(sortFun)`, which is stable.
unfoldable pub insert : Entry → List Entry → List Entry
insert x [] = x ∷ []
insert x (y ∷ ys) = if text_lt y.id x.id then y ∷ insert x ys else x ∷ y ∷ ys

unfoldable pub sort : List Entry → List Entry
sort [] = []
sort (x ∷ xs) = insert x (sort xs)

abbrev pub encode : Template → Template → Result ManifestError Bytes
encode testnet mainnet = elim (templates_to_metadata testnet mainnet) [
  | ok bytes ↦ ok bytes
  | err thrown ↦ err (not_encoded thrown)
]

-- The last loop; the templates of the main net that are left over are not read.
unfoldable pub encode_all : List Entry → List Entry → Result ManifestError (List Bytes)
encode_all [] mainnet = ok []
encode_all (t ∷ testnet) [] = err missing_template
encode_all (t ∷ testnet) (m ∷ mainnet) = do
  bytes ← encode t.template m.template
  rest ← encode_all testnet mainnet
  ok (bytes ∷ rest)

-- `console.assert` prints, and does not stop the code: the loop over the templates of the test net only
-- throws where there is no template of the main net.
unfoldable pub read_manifest : List Entry → List Entry → Result ManifestError (List Bytes)
read_manifest testnet mainnet =
    if ltb (length (sort mainnet)) (length (sort testnet))
    then err missing_template
    else encode_all (sort testnet) (sort mainnet)

-- From the manifests to the tree before its branches are cut.
module _ (sha256 : Text → Text) where
  unfoldable pub generate : List Entry → List Entry → Result ManifestError (Option Tree)
  generate testnet mainnet = read_manifest testnet mainnet >>= λ metadata.
      elim (fill (map to_hex metadata)) [
        | none ↦ err invalid_length
        | some full ↦ ok (build sha256 full)
      ]
