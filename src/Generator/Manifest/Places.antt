-- ===== src/Generator/Manifest/Places.antt =====
-- Where the metadata of a pair of templates stands, and under which keys.
use app_flow.Prelude.{
  ℕ, zero, suc, ◌/◌, ◌%◌, ◌<◌, ◌≡◌, ap, sym, subst, ◌∙◌, ◌++◌, ◌⊎◌, inl, inr, false, some, List, [],
  ◌∷◌, arith, Text, Bytes, All, length, get_elem?, take, codes, text_eq, text_eq→eq, Bool-cases, ok,
  >>=-eq-ok, ok-injective, some-injective,
}
use app_flow.Js.Hex.{to_hex}
use app_flow.Sign.{LeafIndex}
use app_flow.Sign.Workflows.{IsHash}
use app_flow.Device.Levels.{IsDigest}
use app_flow.Generator.Encode.{templates_to_metadata}
use app_flow.Generator.Keys.{templates_to_metadata-key}
use app_flow.Generator.Index.{number_of_hashes, key}
use app_flow.Generator.Proofs.{position, InTree}
use app_flow.Generator.RoundTrip.{IsReadableTemplate}
use app_flow.Generator.Manifest.{Entry, encode, encode_all}
use app_flow.Generator.Manifest.Pairs.{IsShown, encode-eq}

-- A template that can be signed: readable, with a hash of 32 bytes printed in hexadecimal.
abbrev pub IsSignable : Entry → Type 0
IsSignable e = IsReadableTemplate e.template × IsDigest e.template.hash

-- The script's hash starts like that of one of the two templates.
abbrev pub HasKey : Text → Entry → Entry → Type 0
HasKey script_hash t m =
    (take 16 script_hash ≡ take 16 t.template.hash)
    ⊎ (take 16 script_hash ≡ take 16 m.template.hash)

abbrev pub IsHashOf : Text → Entry → Entry → Type 0
IsHashOf script_hash t m = (script_hash ≡ t.template.hash) ⊎ (script_hash ≡ m.template.hash)

pub signable-IsShown : (es : List Entry) → All IsSignable es → All IsShown es
signable-IsShown [] h = tt
signable-IsShown (e ∷ es) ((readable, digest), hs) = ((readable, digest.2), signable-IsShown es hs)

-- The metadata of the pair at a place.
pub encode_all-get_elem? :
    (testnet mainnet : List Entry) (metadata : List Bytes) (k : ℕ) (t m : Entry)
    → encode_all testnet mainnet ≡ ok metadata
    → get_elem? testnet k ≡ some t
    → get_elem? mainnet k ≡ some m
    → (bytes : Bytes) × (get_elem? metadata k ≡ some bytes)
      × (templates_to_metadata t.template m.template ≡ ok bytes)
unfolding encode_all
encode_all-get_elem? [] mainnet metadata k t m e at_t at_m = absurd (ground arith)
encode_all-get_elem? (t' ∷ testnet) [] metadata k t m e at_t at_m = absurd (ground arith)
encode_all-get_elem? (t' ∷ testnet) (m' ∷ mainnet) metadata zero t m e at_t at_m =
    let (bytes, e1, f1) = >>=-eq-ok (encode t'.template m'.template) _ e in
    let (rest, e2, f2) = >>=-eq-ok (encode_all testnet mainnet) _ f1 in
    let made = encode-eq t'.template m'.template bytes e1 in
    (
      bytes,
      ap (λ l. get_elem? l 0) (sym (ok-injective f2)),
      subst (λ x. templates_to_metadata x.template m.template ≡ ok bytes) (some-injective at_t)
          (subst (λ x. templates_to_metadata t'.template x.template ≡ ok bytes)
            (some-injective at_m) made),
    )
encode_all-get_elem? (t' ∷ testnet) (m' ∷ mainnet) metadata (suc k) t m e at_t at_m =
    let (bytes, e1, f1) = >>=-eq-ok (encode t'.template m'.template) _ e in
    let (rest, e2, f2) = >>=-eq-ok (encode_all testnet mainnet) _ f1 in
    let (b, stands, made) = encode_all-get_elem? testnet mainnet rest k t m e2 at_t at_m in
    (b, ap (λ l. get_elem? l (suc k)) (sym (ok-injective f2)) ∙ stands, made)

pub get_elem?-front :
    {A : Type 0} (xs ys : List A) (k : ℕ) (x : A)
    → get_elem? xs k ≡ some x
    → get_elem? (xs ++ ys) k ≡ some x
get_elem?-front [] ys k x h = absurd (ground arith)
get_elem?-front (y ∷ xs) ys zero x h = h
get_elem?-front (y ∷ xs) ys (suc k) x h = get_elem?-front xs ys k x h

pub get_elem?-lt :
    {A : Type 0} (xs : List A) (k : ℕ) (x : A) → get_elem? xs k ≡ some x → k < length xs
get_elem?-lt [] k x h = absurd (ground arith)
get_elem?-lt (y ∷ xs) zero x h = omega arith
get_elem?-lt (y ∷ xs) (suc k) x h = omega (arith, get_elem?-lt xs k x h)

-- The leaf at a place of the list.
abbrev pub place : ℕ → LeafIndex
place k = record { i0 = k / 343; i1 = k / 49 % 7; i2 = k / 7 % 7; i3 = k % 7 }

pub place-InTree : (k : ℕ) → k < 2401 → InTree (place k)
place-InTree k h = omega arith

pub position-place : (k : ℕ) → position (place k) ≡ k
position-place k = omega arith

pub IsHash-digest : (extra : Text) → length extra ≡ 64 → IsHash extra
IsHash-digest extra size =
    (other (codes "Sign message") (omega arith), other (codes "arbitrary") (omega arith))
  where
    other : (s : Text) → length s < 64 → text_eq extra s ≡ false
    other s short = elim (Bool-cases (text_eq extra s)) [
      | inl same ↦ absurd (omega (arith, size, ap length (text_eq→eq extra s same)))
      | inr differs ↦ differs
    ]

-- The keys of the metadata of a pair.
pub key_of_pair :
    (t m : Entry) (bytes : Bytes) (k : Text)
    → IsSignable t
    → IsSignable m
    → templates_to_metadata t.template m.template ≡ ok bytes
    → (k ≡ take 16 t.template.hash) ⊎ (k ≡ take 16 m.template.hash)
    → (hash_no : ℕ) × (hash_no < number_of_hashes (to_hex bytes)) × (key (to_hex bytes) hash_no ≡ k)
key_of_pair t m bytes k ht hm made (inl e) =
    let (_, count, first, second) =
      templates_to_metadata-key t.template m.template bytes made ht.1 hm.1 in
    (0, omega (arith, count), first ∙ sym e)
key_of_pair t m bytes k ht hm made (inr e) =
    let (_, count, first, second) =
      templates_to_metadata-key t.template m.template bytes made ht.1 hm.1 in
    (1, omega (arith, count), second ∙ sym e)

pub pair_of_key :
    (t m : Entry) (bytes : Bytes) (k : Text) (hash_no : ℕ)
    → IsSignable t
    → IsSignable m
    → templates_to_metadata t.template m.template ≡ ok bytes
    → hash_no < number_of_hashes (to_hex bytes)
    → key (to_hex bytes) hash_no ≡ k
    → (k ≡ take 16 t.template.hash) ⊎ (k ≡ take 16 m.template.hash)
pair_of_key t m bytes k zero ht hm made small e =
    let (_, count, first, second) =
      templates_to_metadata-key t.template m.template bytes made ht.1 hm.1 in
    inl (sym e ∙ first)
pair_of_key t m bytes k (suc zero) ht hm made small e =
    let (_, count, first, second) =
      templates_to_metadata-key t.template m.template bytes made ht.1 hm.1 in
    inr (sym e ∙ second)
pair_of_key t m bytes k (suc (suc n)) ht hm made small e =
    let (_, count, first, second) =
      templates_to_metadata-key t.template m.template bytes made ht.1 hm.1 in
    absurd (omega (arith, count))
