-- ===== src/Generator/Manifest/Pairs.antt =====
-- The pairs of templates that `readManifest` encodes, and the leaves that hold their metadata.
use app_flow.Prelude.{
  ℕ, zero, suc, ◌-◌, ◌≡◌, refl, ap, sym, subst, ◌⊎◌, inl, inr, some, List, [], ◌∷◌, ◌++◌, map,
  arith, Text, Bytes, All, All-append, All-imp, length, get_elem?, replicate, ok, >>=-eq-ok,
  ok-injective, some-injective, ltb, Bool-cases,
}
use app_flow.Js.Hex.{to_hex, from_hex, from_hex-to_hex_whole}
use app_flow.Generator.Build.{fill}
use app_flow.Generator.Encode.{Template, templates_to_metadata}
use app_flow.Generator.Levels.{IsHex}
use app_flow.Generator.RoundTrip.{IsReadableTemplate}
use app_flow.Generator.Octets.{templates_to_metadata-All-IsByte}
use app_flow.Generator.Manifest.{Entry, sort, insert, encode, encode_all, text_lt}
use app_flow.Generator.Whole.{All-map_of}

-- A template that the device can show: readable, with a hash of 32 bytes.
abbrev pub IsShown : Entry → Type 0
IsShown e = IsReadableTemplate e.template × (length (from_hex e.template.hash) ≡ 32)

-- The templates at one place of the two lists.
abbrev pub Pair : List Entry → List Entry → Entry → Entry → Type 0
Pair testnet mainnet t m = (k : ℕ) × (get_elem? testnet k ≡ some t) × (get_elem? mainnet k ≡ some m)

abbrev pub IsOf : List Entry → List Entry → Bytes → Type 0
IsOf testnet mainnet bytes =
    (t m : Entry) × Pair testnet mainnet t m
    × IsShown t
    × IsShown m
    × (templates_to_metadata t.template m.template ≡ ok bytes)

pub encode-eq :
    (testnet mainnet : Template) (bytes : Bytes)
    → encode testnet mainnet ≡ ok bytes
    → templates_to_metadata testnet mainnet ≡ ok bytes
encode-eq testnet mainnet bytes h = ground arith

pub encode_all-IsOf :
    (testnet mainnet : List Entry) (metadata : List Bytes)
    → All IsShown testnet
    → All IsShown mainnet
    → encode_all testnet mainnet ≡ ok metadata
    → All (IsOf testnet mainnet) metadata
unfolding encode_all
encode_all-IsOf [] mainnet metadata ht hm e = subst (All (IsOf [] mainnet)) (ok-injective e) tt
encode_all-IsOf (t ∷ testnet) [] metadata ht hm e = absurd (ground arith)
encode_all-IsOf (t ∷ testnet) (m ∷ mainnet) metadata (ht, hts) (hm, hms) e =
    let (bytes, e1, f1) = >>=-eq-ok (encode t.template m.template) _ e in
    let (rest, e2, f2) = >>=-eq-ok (encode_all testnet mainnet) _ f1 in
    let first : IsOf (t ∷ testnet) (m ∷ mainnet) bytes =
      (t, m, (0, refl, refl), ht, hm, encode-eq t.template m.template bytes e1) in
    let next = λ (b : Bytes) (of : IsOf testnet mainnet b).
      let (u, v, (k, at_t, at_m), hu, hv, made) = of in
      let shifted : IsOf (t ∷ testnet) (m ∷ mainnet) b =
        (u, v, (suc k, at_t, at_m), hu, hv, made) in
      shifted in
    let more =
      All-imp (IsOf testnet mainnet) (IsOf (t ∷ testnet) (m ∷ mainnet)) next rest
        (encode_all-IsOf testnet mainnet rest hts hms e2) in
    subst (All (IsOf (t ∷ testnet) (m ∷ mainnet))) (ok-injective f2) (first, more)

insert-All :
    (P : Entry → Type 0) (x : Entry) (xs : List Entry) → P x → All P xs → All P (insert x xs)
unfolding insert
insert-All P x [] h hs = (h, tt)
insert-All P x (y ∷ ys) h (k, ks) = elim (Bool-cases (text_lt y.id x.id)) [
  | inl e ↦ rw e (k, insert-All P x ys h ks)
  | inr e ↦ rw e (h, (k, ks))
]

pub sort-All : (P : Entry → Type 0) (xs : List Entry) → All P xs → All P (sort xs)
unfolding sort
sort-All P [] h = tt
sort-All P (x ∷ xs) (h, hs) = insert-All P x (sort xs) h (sort-All P xs hs)

-- What a leaf holds: nothing, or the metadata of a pair of templates.
abbrev pub IsPut : List Entry → List Entry → Text → Type 0
IsPut testnet mainnet s = (from_hex s ≡ []) ⊎ IsOf testnet mainnet (from_hex s)

from_hex_nil : from_hex [] ≡ []
unfolding from_hex
from_hex_nil = refl

nil-IsHex : IsHex []
unfolding from_hex to_hex
nil-IsHex = refl

pub fill-eq :
    (metadata full : List Text)
    → fill metadata ≡ some full
    → full ≡ metadata ++ replicate (2401 - length metadata) []
unfolding fill
fill-eq metadata full e = elim (Bool-cases (ltb 2401 (length metadata))) [
  | inl more ↦ absurd (ground (arith, more, e))
  | inr fits ↦ sym (some-injective (rw fits at e))
]

module _ (testnet mainnet : List Entry) where
  abbrev pub IsLeafText : Text → Type 0
  IsLeafText s = IsPut testnet mainnet s × IsHex s

  printed-IsLeafText : (bytes : Bytes) → IsOf testnet mainnet bytes → IsLeafText (to_hex bytes)
  printed-IsLeafText bytes of =
      let (t, m, at, ht, hm, made) = of in
      let octets = templates_to_metadata-All-IsByte t.template m.template bytes hm.0 made in
      let back = from_hex-to_hex_whole bytes octets in
      (inr (subst (IsOf testnet mainnet) (sym back) of), ap to_hex back)

  filler-IsLeafText : (n : ℕ) → All IsLeafText (replicate n [])
  filler-IsLeafText zero = tt
  filler-IsLeafText (suc n) = ((inl from_hex_nil, nil-IsHex), filler-IsLeafText n)

  pub fill-IsLeafText :
      (metadata : List Bytes) (full : List Text)
      → All (IsOf testnet mainnet) metadata
      → fill (map to_hex metadata) ≡ some full
      → All IsLeafText full
  fill-IsLeafText metadata full h e =
      subst (All IsLeafText) (sym (fill-eq (map to_hex metadata) full e)) (
        All-append IsLeafText (map to_hex metadata) _
          (All-map_of (IsOf testnet mainnet) IsLeafText to_hex printed-IsLeafText metadata h)
          (filler-IsLeafText (2401 - length (map to_hex metadata))))
