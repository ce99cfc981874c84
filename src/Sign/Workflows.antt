-- ===== src/Sign/Workflows.antt =====
-- What `signGetChunks` returns in its workflows.
use app_flow.Prelude.{
  ℕ, ◌≡◌, ◌≢◌, ◌⊎◌, inl, inr, refl, sym, ap, ◌∙◌, false, List, [], ◌∷◌, ◌++◌, Text, Bytes, All,
  take, codes, text_eq, ok,
}
use app_flow.Js.Number.{JsNumber}
use app_flow.Path.{PathArg, serialize_path}
use app_flow.Merkle.Tree.{Tree}
use app_flow.Sign.PayloadType
use app_flow.Sign.{
  Chunk, p2_unused, add_chunks, prepare_basic_chunks, set_last_type, text, MerkleIndex, LeafIndex,
  leaf, undefined, lookup, proof_chunks, choose, with_metadata, sign_get_chunks,
}
use app_flow.Sign.Chunks.{payload, IsFilled, IsAdd, IsBasic, prepare_basic_chunks-IsBasic}

-- ADD packets, and a last one of type `final`.
abbrev pub IsEnding : ℕ → List Chunk → Type 0
IsEnding final [] = ⊥
IsEnding final (c ∷ []) = (c.type ≡ final) × (c.p2 ≡ p2_unused)
IsEnding final (c ∷ d ∷ cs) = IsAdd c × IsEnding final (d ∷ cs)

-- A workflow with no metadata: the path, then the message, the last packet of type `final`.
pub record IsPlain (final : ℕ) (path message : Bytes) (chunks : List Chunk) : Type 0 where
  pub rest : List Chunk
  pub shape : chunks ≡ record { type = PayloadType.init; p2 = p2_unused; buffer = path } ∷ rest
  pub ending : IsEnding final rest
  pub filled : IsFilled rest
  pub complete : payload rest ≡ message

-- The two values of `extraInfo` that ask for no metadata, and the type of the last packet.
abbrev pub IsRequest : Text → ℕ → Type 0
IsRequest extra final =
    ((extra ≡ codes "Sign message") × (final ≡ PayloadType.message_last))
    ⊎ ((extra ≡ codes "arbitrary") × (final ≡ PayloadType.last))

-- `extraInfo` that is taken for a script hash.
abbrev pub IsHash : Text → Type 0
IsHash extra =
    (text_eq extra (codes "Sign message") ≡ false) × (text_eq extra (codes "arbitrary") ≡ false)

set_last_type-IsEnding :
    (final : ℕ) (c : Chunk) (cs : List Chunk)
    → All IsAdd (c ∷ cs)
    → IsEnding final (set_last_type final (c ∷ cs))
unfolding set_last_type
set_last_type-IsEnding final c [] h = (refl, refl)
set_last_type-IsEnding final c (d ∷ []) (h, hs) = (h, (refl, refl))
set_last_type-IsEnding final c (d ∷ e ∷ cs) (h, hs) =
    (h, set_last_type-IsEnding final d (e ∷ cs) hs)

set_last_type-IsFilled :
    (final : ℕ) (cs : List Chunk) → IsFilled cs → IsFilled (set_last_type final cs)
unfolding set_last_type
set_last_type-IsFilled final [] h = h
set_last_type-IsFilled final (c ∷ []) h = h
set_last_type-IsFilled final (c ∷ d ∷ []) h = h
set_last_type-IsFilled final (c ∷ d ∷ e ∷ cs) (h, hs) =
    (h, set_last_type-IsFilled final (d ∷ e ∷ cs) hs)

payload-set_last_type :
    (final : ℕ) (cs : List Chunk) → payload (set_last_type final cs) ≡ payload cs
unfolding set_last_type
payload-set_last_type final [] = refl
payload-set_last_type final (c ∷ []) = refl
payload-set_last_type final (c ∷ d ∷ cs) =
    ap (λ t. c.buffer ++ t) (payload-set_last_type final (d ∷ cs))

basic_to_plain :
    (final : ℕ) (path message : Bytes) {chunks : List Chunk}
    → message ≢ []
    → IsBasic path message chunks
    → IsPlain final path message (set_last_type final chunks)
basic_to_plain final path message ne b = go b.adds b.shape b.all_add b.filled b.complete
  where
    go :
        (adds : List Chunk) {cs : List Chunk}
        → cs ≡ record { type = PayloadType.init; p2 = p2_unused; buffer = path } ∷ adds
        → All IsAdd adds
        → IsFilled adds
        → payload adds ≡ message
        → IsPlain final path message (set_last_type final cs)
    go [] e a f c = absurd (ne (sym c))
    go (d ∷ ds) e a f c = record {
      rest = set_last_type final (d ∷ ds);
      shape = ap (set_last_type final) e ∙ unfold set_last_type in refl;
      ending = set_last_type-IsEnding final d ds a;
      filled = set_last_type-IsFilled final (d ∷ ds) f;
      complete = payload-set_last_type final (d ∷ ds) ∙ c;
    }

module _ (merkle_index : MerkleIndex) (merkle_tree : Tree) where
  choose_request :
      (extra : Text) (final : ℕ) (basic : List Chunk)
      → IsRequest extra final
      → choose merkle_index merkle_tree (text extra) basic ≡ ok (set_last_type final basic)
  unfolding choose
  choose_request extra final basic (inl (e, f)) = rw (e, f)
  choose_request extra final basic (inr (e, f)) = rw (e, f)

  serialized_first :
      (path : PathArg) (options : JsNumber) (message : Bytes) (extra : Text) (serialized : Bytes)
      → serialize_path path options ≡ ok serialized
      → sign_get_chunks merkle_index merkle_tree path options message (text extra)
        ≡ choose merkle_index merkle_tree (text extra) (prepare_basic_chunks serialized message)
  unfolding sign_get_chunks
  serialized_first path options message extra serialized hp = rw hp

  -- Message signing and arbitrary signing of a message that is not empty send the path, then the
  -- message in full packets and a rest, the last one of the workflow's type.
  pub sign_get_chunks-IsPlain :
      (path : PathArg) (options : JsNumber) (message : Bytes) (extra : Text) (final : ℕ)
      (serialized : Bytes)
      → serialize_path path options ≡ ok serialized
      → IsRequest extra final
      → message ≢ []
      → (chunks : List Chunk) × (sign_get_chunks merkle_index merkle_tree path options message
            (text extra)
          ≡ ok chunks)
        × IsPlain final serialized message chunks
  sign_get_chunks-IsPlain path options message extra final serialized hp hr ne = (
    set_last_type final (prepare_basic_chunks serialized message),
    serialized_first path options message extra serialized hp ∙ choose_request extra final _ hr,
    basic_to_plain final serialized message ne (prepare_basic_chunks-IsBasic serialized message),
  )

  -- An empty message leaves no packet of type INIT: the path itself is sent as the last packet.
  pub sign_get_chunks_empty :
      (path : PathArg) (options : JsNumber) (extra : Text) (final : ℕ) (serialized : Bytes)
      → serialize_path path options ≡ ok serialized
      → IsRequest extra final
      → sign_get_chunks merkle_index merkle_tree path options [] (text extra)
        ≡ ok (record { type = final; p2 = p2_unused; buffer = serialized } ∷ [])
  sign_get_chunks_empty path options extra final serialized hp hr =
      serialized_first path options [] extra serialized hp
      ∙ choose_request extra final _ hr
      ∙ unfold set_last_type prepare_basic_chunks add_chunks in refl

  choose_hash :
      (extra : Text) (basic : List Chunk)
      → IsHash extra
      → choose merkle_index merkle_tree (text extra) basic
        ≡ with_metadata merkle_index merkle_tree extra basic
  unfolding choose
  choose_hash extra basic h = rw (h.0, h.1)

  -- A hash that the index does not have gives no packet at all.
  pub sign_get_chunks_unknown :
      (path : PathArg) (options : JsNumber) (message : Bytes) (extra : Text) (serialized : Bytes)
      → serialize_path path options ≡ ok serialized
      → IsHash extra
      → lookup (take 16 extra) merkle_index ≡ undefined
      → sign_get_chunks merkle_index merkle_tree path options message (text extra) ≡ ok []
  sign_get_chunks_unknown path options message extra serialized hp hx hl =
      serialized_first path options message extra serialized hp
      ∙ choose_hash extra _ hx
      ∙ unfold with_metadata in rw (hl, with_metadata)

  -- A hash of the index gives the basic packets and the proof of its leaf.
  pub sign_get_chunks_known :
      (path : PathArg) (options : JsNumber) (message : Bytes) (extra : Text) (serialized : Bytes)
      (at : LeafIndex) (proof : List Chunk)
      → serialize_path path options ≡ ok serialized
      → IsHash extra
      → lookup (take 16 extra) merkle_index ≡ leaf at
      → proof_chunks merkle_tree at ≡ ok proof
      → sign_get_chunks merkle_index merkle_tree path options message (text extra)
        ≡ ok (prepare_basic_chunks serialized message ++ proof)
  sign_get_chunks_known path options message extra serialized at proof hp hx hl hq =
      serialized_first path options message extra serialized hp
      ∙ choose_hash extra _ hx
      ∙ unfold with_metadata in rw (hl, hq, with_metadata)
