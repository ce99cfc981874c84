-- ===== src/Shipped/Proofs.antt =====
-- The packets for a script hash of the shipped index.
use app_flow.Prelude.{
  ℕ, ◌≤◌, ◌≡◌, ◌⊎◌, refl, sym, ap, ap₂, and-true, ==_iff, ◌∙◌, Bool, true, false, ◌&&◌, ◌||◌, List,
  [], ◌∷◌, ◌++◌, arith, leb, ◌==◌, Text, Bytes, text_eq, text_eq→eq, length, take, Result, ok, err,
  Bool-cases, subst, if◌then◌else◌, inl, inr,
}
use app_flow.Js.Number.{JsNumber}
use app_flow.Js.Buffer.{slice}
use app_flow.Js.Hex.{from_hex, hex_value}
use app_flow.Path.{PathArg, serialize_path}
use app_flow.Sign
use app_flow.Sign.{
  Chunk, SignError, LeafIndex, MerkleIndex, Entry, inherited, undefined, lookup, leaf,
  prepare_basic_chunks, proof_chunks, sign_get_chunks, p2_unused,
}
use app_flow.Sign.Entries.{leaf-injective}
use app_flow.Sign.PayloadType
use app_flow.Sign.Workflows.{IsHash, sign_get_chunks_known}
use app_flow.Shipped.Shape.{merkle_tree}
use app_flow.Shipped.Index.{merkle_index}

abbrev chunk : ℕ → Bytes → Chunk
chunk type buffer = record { type = type; p2 = p2_unused; buffer = buffer }

-- One of the two hashes of the metadata starts with the key.
abbrev pub HasHash : Text → Bytes → Type 0
HasHash key metadata = (slice metadata 1 9 ≡ from_hex key) ⊎ (slice metadata 33 41 ≡ from_hex key)

-- Metadata that fits one packet and holds the key, and four lists of seven hashes.
abbrev pub IsProof : Text → List Chunk → Type 0
IsProof key chunks =
    (metadata level1 level2 level3 level4 : Bytes) × (chunks
      ≡ chunk PayloadType.tx_metadata metadata
        ∷ chunk PayloadType.merkle_tree level1
        ∷ chunk PayloadType.merkle_tree level2
        ∷ chunk PayloadType.merkle_tree level3
        ∷ chunk PayloadType.merkle_tree_last level4
        ∷ [])
    × (length metadata ≤ 255)
    × (length level1 ≡ 224)
    × (length level2 ≡ 224)
    × (length level3 ≡ 224)
    × (length level4 ≡ 224)
    × HasHash key metadata

is_chunk : ℕ → Chunk → Bool
is_chunk type c = (c.type == type) && (c.p2 == p2_unused)

is_level : ℕ → Chunk → Bool
unfolding is_chunk
is_level type c = is_chunk type c && (length c.buffer == 224)

has_hash : Text → Bytes → Bool
has_hash key metadata =
    text_eq (slice metadata 1 9) (from_hex key) || text_eq (slice metadata 33 41) (from_hex key)

is_proof : Text → Result SignError (List Chunk) → Bool
unfolding is_chunk is_level has_hash
is_proof key (ok (m ∷ l1 ∷ l2 ∷ l3 ∷ l4 ∷ [])) =
    is_chunk PayloadType.tx_metadata m
    && leb (length m.buffer) 255
    && has_hash key m.buffer
    && is_level PayloadType.merkle_tree l1
    && is_level PayloadType.merkle_tree l2
    && is_level PayloadType.merkle_tree l3
    && is_level PayloadType.merkle_tree_last l4
is_proof key _ = false

is_chunk-chunk : (type : ℕ) (c : Chunk) → is_chunk type c ≡ true → c ≡ chunk type c.buffer
unfolding is_chunk
is_chunk-chunk type c h =
    let (same, unused) = and-true (c.type == type) (c.p2 == p2_unused) h in
    ap₂ (λ t p. record { type = t; p2 = p; buffer = c.buffer }) ((==_iff c.type type).0 same)
      ((==_iff c.p2 p2_unused).0 unused)

is_level-chunk :
    (type : ℕ) (c : Chunk)
    → is_level type c ≡ true
    → (c ≡ chunk type c.buffer) × (length c.buffer ≡ 224)
unfolding is_level
is_level-chunk type c h =
    let (same, size) = and-true (is_chunk type c) (length c.buffer == 224) h in
    (is_chunk-chunk type c same, (==_iff (length c.buffer) 224).0 size)

has_hash-HasHash :
    (key : Text) (metadata : Bytes) → has_hash key metadata ≡ true → HasHash key metadata
unfolding has_hash
has_hash-HasHash key metadata h = elim (Bool-cases (text_eq (slice metadata 1 9) (from_hex key))) [
  | inl e ↦ inl (text_eq→eq _ _ e)
  | inr e ↦
      inr
        (text_eq→eq _ _ (ap (λ b. b || text_eq (slice metadata 33 41) (from_hex key)) (sym e) ∙ h))
]

five :
    {m m' l1 l1' l2 l2' l3 l3' l4 l4' : Chunk}
    → m ≡ m'
    → l1 ≡ l1'
    → l2 ≡ l2'
    → l3 ≡ l3'
    → l4 ≡ l4'
    → Path (List Chunk) (m ∷ l1 ∷ l2 ∷ l3 ∷ l4 ∷ []) (m' ∷ l1' ∷ l2' ∷ l3' ∷ l4' ∷ [])
five a b c d e = λ i. a i ∷ b i ∷ c i ∷ d i ∷ e i ∷ []

is_proof-IsProof :
    (key : Text) (proof : Result SignError (List Chunk))
    → is_proof key proof ≡ true
    → (chunks : List Chunk) × (proof ≡ ok chunks) × IsProof key chunks
unfolding is_proof
is_proof-IsProof key (ok (m ∷ l1 ∷ l2 ∷ l3 ∷ l4 ∷ [])) h =
    let (h1, d) = and-true _ (is_level PayloadType.merkle_tree_last l4) h in
    let (h2, c) = and-true _ (is_level PayloadType.merkle_tree l3) h1 in
    let (h3, b) = and-true _ (is_level PayloadType.merkle_tree l2) h2 in
    let (h4, a) = and-true _ (is_level PayloadType.merkle_tree l1) h3 in
    let (h5, hh) = and-true _ (has_hash key m.buffer) h4 in
    let (hm, hf) = and-true (is_chunk PayloadType.tx_metadata m) (leb (length m.buffer) 255) h5 in
    let (a', an) = is_level-chunk PayloadType.merkle_tree l1 a in
    let (b', bn) = is_level-chunk PayloadType.merkle_tree l2 b in
    let (c', cn) = is_level-chunk PayloadType.merkle_tree l3 c in
    let (d', dn) = is_level-chunk PayloadType.merkle_tree_last l4 d in
    let all = five (is_chunk-chunk PayloadType.tx_metadata m hm) a' b' c' d' in
    (
      m ∷ l1 ∷ l2 ∷ l3 ∷ l4 ∷ [],
      refl,
      (
        m.buffer,
        l1.buffer,
        l2.buffer,
        l3.buffer,
        l4.buffer,
        all,
        ground arith,
        an,
        bn,
        cn,
        dn,
        has_hash-HasHash key m.buffer hh,
      ),
    )
is_proof-IsProof key (ok []) h = absurd (ground arith)
is_proof-IsProof key (ok (_ ∷ [])) h = absurd (ground arith)
is_proof-IsProof key (ok (_ ∷ _ ∷ [])) h = absurd (ground arith)
is_proof-IsProof key (ok (_ ∷ _ ∷ _ ∷ [])) h = absurd (ground arith)
is_proof-IsProof key (ok (_ ∷ _ ∷ _ ∷ _ ∷ [])) h = absurd (ground arith)
is_proof-IsProof key (ok (_ ∷ _ ∷ _ ∷ _ ∷ _ ∷ _ ∷ _)) h = absurd (ground arith)
is_proof-IsProof key (err e) h = absurd (ground arith)

-- Each entry of an index leads to a proof of its key.
has_proofs : MerkleIndex → Bool
has_proofs [] = true
has_proofs ((key, at) ∷ index) = is_proof key (proof_chunks merkle_tree at) && has_proofs index

found :
    (k : Text) (v : LeafIndex) (index : MerkleIndex) (key : Text) (at : LeafIndex)
    → is_proof k (proof_chunks merkle_tree v) ≡ true
    → lookup key ((k, v) ∷ index) ≡ leaf at
    → text_eq k key ≡ true
    → is_proof key (proof_chunks merkle_tree at) ≡ true
unfolding lookup
found k v index key at h e same =
    let e' : leaf v ≡ leaf at = ap (λ b. if b then leaf v else lookup key index) (sym same) ∙ e in
    subst (λ k'. is_proof k' (proof_chunks merkle_tree at) ≡ true) (text_eq→eq k key same)
      (subst (λ v'. is_proof k (proof_chunks merkle_tree v') ≡ true) (leaf-injective e') h)

has_proofs-lookup :
    (index : MerkleIndex) (key : Text) (at : LeafIndex)
    → has_proofs index ≡ true
    → lookup key index ≡ leaf at
    → is_proof key (proof_chunks merkle_tree at) ≡ true
unfolding has_proofs lookup
has_proofs-lookup [] key at h e = absurd (ground arith)
has_proofs-lookup ((k, v) ∷ index) key at h e =
    let (this, rest) = and-true _ (has_proofs index) h in
    elim (Bool-cases (text_eq k key)) [
      | inl same ↦ found k v index key at this e same
      | inr other ↦
          has_proofs-lookup index key at rest
            (ap (λ b. if b then leaf v else lookup key index) (sym other) ∙ e)
    ]

merkle_index-has_proofs : has_proofs merkle_index ≡ true
unfolding has_proofs is_proof is_chunk is_level has_hash proof_chunks from_hex hex_value
merkle_index-has_proofs = refl

-- For a script hash whose first 16 digits are a key of the shipped index, the basic packets are followed by
-- metadata that fits one packet and holds a hash that starts with the key, and by four lists of
-- seven hashes.
pub sign_get_chunks-shipped :
    (path : PathArg) (options : JsNumber) (message : Bytes) (extra : Text) (serialized : Bytes)
    (at : LeafIndex)
    → serialize_path path options ≡ ok serialized
    → IsHash extra
    → lookup (take 16 extra) merkle_index ≡ leaf at
    → (proof : List Chunk) × (sign_get_chunks merkle_index merkle_tree path options message
          (Sign.text extra)
        ≡ ok (prepare_basic_chunks serialized message ++ proof))
      × IsProof (take 16 extra) proof
sign_get_chunks-shipped path options message extra serialized at hs hx hl =
    let (proof, e, good) =
      is_proof-IsProof (take 16 extra) (proof_chunks merkle_tree at)
        (has_proofs-lookup merkle_index (take 16 extra) at merkle_index-has_proofs hl) in
    (
      proof,
      sign_get_chunks_known merkle_index merkle_tree path options message extra serialized at proof
          hs hx hl e,
      good,
    )
