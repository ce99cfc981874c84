-- ===== src/Generator/Keys.antt =====
-- The metadata of a template holds the template's two hashes where the index looks for them.
use app_flow.Prelude.{
  ℕ, zero, suc, ◌*◌, ◌≤◌, ◌≡◌, refl, ap, ap₂, sym, ◌∙◌, List, [], ◌∷◌, ◌++◌, arith, ltb, Text,
  Bytes, length, take, drop-append_eq, Result, ok, err, >>=-eq-ok, ok-injective, lt-cases, inl, inr,
  subst, if◌then◌else◌, le→ltb_false,
}
use app_flow.Js.Hex.{to_hex, from_hex, hex_digit, hex_value, to_hex-append}
use app_flow.Device.Levels.{IsDigest}
use app_flow.Generator.Index.{number_of_hashes, key}
use app_flow.Generator.Encode.{
  Template, EncodeError, legerify, tx_name_transforms, uint8_to_buff, process_args, too_long,
  templates_to_metadata,
}

take-append_le :
    {A : Type 0} (n : ℕ) (xs ys : List A) → n ≤ length xs → take n (xs ++ ys) ≡ take n xs
take-append_le zero xs ys h = refl
take-append_le (suc n) [] ys h = absurd (omega arith)
take-append_le (suc n) (x ∷ xs) ys h = ap (λ t. x ∷ t) (take-append_le n xs ys (omega arith))

length-to_hex : (bs : Bytes) → length (to_hex bs) ≡ 2 * length bs
unfolding to_hex
length-to_hex [] = refl
length-to_hex (b ∷ bs) = let more = length-to_hex bs in omega (arith, more)

pub length-digest : (t : Text) → IsDigest t → length t ≡ 64
length-digest t (printed, _, size) =
    ap length (sym printed) ∙ length-to_hex (from_hex t) ∙ ap (λ n. 2 * n) size

pub limited :
    (result bytes : Bytes)
    → Path
        (Result EncodeError Bytes)
        (if ltb 255 (length result) then err too_long else ok result)
        (ok bytes)
    → (bytes ≡ result) × (length bytes ≤ 255)
limited result bytes h = elim (lt-cases 255 (length result)) [
  | inl long ↦ absurd (ground arith)
  | inr fits ↦
      let same : result ≡ bytes = ok-injective (
        ap (λ b. if b then err too_long else ok result)
          (sym (le→ltb_false 255 (length result) fits))
        ∙ h) in
      (sym same, subst (λ x. length x ≤ 255) same fits)
]

-- What metadata that was made begins with, and its size.
pub metadata_parts :
    (testnet mainnet : Template) (bytes : Bytes)
    → templates_to_metadata testnet mainnet ≡ ok bytes
    → (rest : Bytes) × (bytes ≡ 2 ∷ (from_hex testnet.hash ++ (from_hex mainnet.hash ++ rest)))
      × (length bytes ≤ 255)
unfolding templates_to_metadata
metadata_parts testnet mainnet bytes h =
    let (name, _, h1) = >>=-eq-ok (legerify tx_name_transforms mainnet.name) _ h in
    let (count, _, h2) = >>=-eq-ok (uint8_to_buff (length mainnet.arguments)) _ h1 in
    let (args, _, h3) = >>=-eq-ok (process_args mainnet.arguments 0) _ h2 in
    let (same, fits) = limited _ bytes h3 in (name ++ (0 ∷ (count ++ args)), same, fits)

text_of_parts :
    (a b rest : Bytes) (s t : Text)
    → to_hex a ≡ s
    → to_hex b ≡ t
    → to_hex (2 ∷ (a ++ (b ++ rest))) ≡ b'0' ∷ b'2' ∷ (s ++ (t ++ to_hex rest))
text_of_parts a b rest s t hs ht =
    let inner = to_hex-append b rest ∙ ap (λ x. x ++ to_hex rest) ht in
    let outer = to_hex-append a (b ++ rest) ∙ ap₂ (λ x y. x ++ y) hs inner in
    unfold to_hex hex_digit in ap (λ x. b'0' ∷ b'2' ∷ x) outer

-- The metadata of a template whose hashes have 32 bytes has at most 255 bytes, counts two hashes, and
-- is indexed under the first 16 digits of the one of the test net and of the one of the main net.
pub templates_to_metadata-key :
    (testnet mainnet : Template) (bytes : Bytes)
    → templates_to_metadata testnet mainnet ≡ ok bytes
    → IsDigest testnet.hash
    → IsDigest mainnet.hash
    → (length bytes ≤ 255)
      × (number_of_hashes (to_hex bytes) ≡ 2)
      × (key (to_hex bytes) 0 ≡ take 16 testnet.hash)
      × (key (to_hex bytes) 1 ≡ take 16 mainnet.hash)
templates_to_metadata-key testnet mainnet bytes h ht hm =
    let (rest, same, fits) = metadata_parts testnet mainnet bytes h in
    let spelled =
      ap to_hex same
      ∙ text_of_parts (from_hex testnet.hash) (from_hex mainnet.hash) rest testnet.hash mainnet.hash
          ht.0 hm.0 in
    let st = length-digest testnet.hash ht in
    let sm = length-digest mainnet.hash hm in
    let behind = mainnet.hash ++ to_hex rest in
    (
      fits,
      ap number_of_hashes spelled ∙ unfold number_of_hashes hex_value in refl,
      ap (λ x. key x 0) spelled ∙ take-append_le 16 testnet.hash behind (omega (arith, st)),
      ap (λ x. key x 1) spelled
          ∙ ap (take 16) (drop-append_eq 64 testnet.hash behind st)
          ∙ take-append_le 16 mainnet.hash (to_hex rest) (omega (arith, sm)),
    )
