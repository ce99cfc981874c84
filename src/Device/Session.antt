-- ===== src/Device/Session.antt =====
-- A call of `FlowApp.sign` with a device at the other end of the line.
use app_flow.Prelude.{
  ℕ, ◌≤◌, ◌≡◌, refl, sym, subst, ap, ◌∙◌, true, false, Bool-cases, inl, inr, Option, List, [], ◌∷◌,
  ◌++◌, map, take, Text, Bytes, length, Result, ok, err, ◌>>=◌,
}
use app_flow.Prelude.{◌+◌, ◌*◌, Bool, ◌||◌, ◌==◌}
use app_flow.Js.Hex.{from_hex}
use app_flow.Js.Number.{JsNumber}
use app_flow.Path.{PathArg, OptionsArg, serialize_path, validate_crypto_options}
use app_flow.Merkle.Tree.{Tree, hash}
use app_flow.Common.{no_error}
use app_flow.Sign
use app_flow.Sign.{
  Chunk, LeafIndex, MerkleIndex, lookup, leaf, prepare_basic_chunks, sign_get_chunks,
}
use app_flow.Sign.PayloadType
use app_flow.Sign.Workflows.{IsHash}
use app_flow.Client.Transport.{Reply, resolved, rejected, Transport}
use app_flow.Client.Responses.{SignResult, is_code, process_sign_response}
use app_flow.Client.Payloads.{Failure, answer, sign_apdu, settle_sign, not_initialized, is_old}
use app_flow.Client.App.{get_version, sign_loop, sign, sign_implementation}
use app_flow.Client.Signing.{sign_is_last_apdu_always, process_success, round_accepted, signed}
use app_flow.Common.ErrorCodes.{return_code-append}
use app_flow.Js.Buffer.{slice}
use app_flow.Device.Chunks.{
  Buffering, Machine, Verdict, not_finished, finished_with_metadata, is_known_net, process_chunk,
}
use app_flow.Device.Chain.{process_chunks, verdicts}
use app_flow.Device.Accepts.{IsProved, packet}
use app_flow.Device.Transaction.{Takes, going_on, sign_get_chunks-process_chunks}
use app_flow.Device.Handler.{Outside, handle_sign, handle_apdu, device}

abbrev pub is_listed : ℕ → List ℕ → Bool
is_listed n [] = false
is_listed n (m ∷ ms) = n == m || is_listed n ms

-- A response whose status word is among the accepted ones makes the promise resolve.
abbrev pub Delivers : (List ℕ → Bytes → Reply) → Type 0
Delivers line =
    (accepted : List ℕ) (body : Bytes) (high low : ℕ)
    → is_listed (high * 256 + low) accepted ≡ true
    → line accepted (body ++ (high ∷ low ∷ [])) ≡ resolved (body ++ (high ∷ low ∷ []))

-- The type of a packet does not change what is made of its response.
settle_sign-any :
    (type : ℕ) (reply : Reply)
    → settle_sign type reply ≡ settle_sign PayloadType.merkle_tree_last reply
unfolding settle_sign
settle_sign-any type (resolved response) =
    ap (λ last. ok (process_sign_response last response))
      (sign_is_last_apdu_always type ∙ sym (sign_is_last_apdu_always PayloadType.merkle_tree_last))
settle_sign-any type (rejected r) = refl

round_last :
    (t : Transport) (engine_text : Text) (c : Chunk) (s : t.State) (result : SignResult)
    (x : Result Failure SignResult)
    → settle_sign c.type (t.send s (sign_apdu c)).1 ≡ x
    → sign_loop t engine_text (c ∷ []) s result ≡ ((t.send s (sign_apdu c)).0, x)
unfolding sign_loop
round_last t engine_text c s result (err f) h = rw h refl
round_last t engine_text c s result (ok r) h = elim (Bool-cases (is_code r.return_code no_error)) [
  | inl k ↦ rw (h, k) refl
  | inr k ↦ rw (h, k) refl
]

-- All packets are accepted, and the last ends a transaction with metadata.
abbrev Ends : List Verdict → Type 0
Ends [] = ⊥
Ends (v ∷ []) = v ≡ finished_with_metadata
Ends (v ∷ w ∷ vs) = (v ≡ not_finished) × Ends (w ∷ vs)

Ends-append :
    (cs : List Chunk) (vs : List Verdict) → Ends vs → Ends (map (λ c. not_finished) cs ++ vs)
Ends-append [] vs h = h
Ends-append (c ∷ []) (v ∷ vs) h = (refl, h)
Ends-append (c ∷ []) [] h = absurd h
Ends-append (c ∷ d ∷ cs) vs h = (refl, Ends-append (d ∷ cs) vs h)

-- What the packets return: the path, the pieces of the message, and the five of the proof.
Ends-basic :
    (b : Buffering) (sha256 : Bytes → Option Bytes) (path message : Bytes)
    → Ends (
        going_on b sha256 (prepare_basic_chunks path message)
        ++ not_finished ∷ not_finished ∷ not_finished ∷ not_finished ∷ finished_with_metadata ∷ [])
Ends-basic b sha256 path message =
    Ends-append (prepare_basic_chunks path message) _ (refl, (refl, (refl, (refl, refl))))

abbrev status_ok : Bytes
status_ok = 0x90 ∷ 0x00 ∷ []

abbrev pub statuses : List ℕ
statuses = 0x9000 ∷ 0x6984 ∷ 0x6a80 ∷ []

-- What is made of a response that is a status word only.
abbrev pub no_signature_yet : SignResult
no_signature_yet = signed (take 65 status_ok) (slice status_ok 65 0)

pub settle_ok : (type : ℕ) → settle_sign type (resolved status_ok) ≡ ok no_signature_yet
unfolding settle_sign
settle_ok type =
    rw (sign_is_last_apdu_always type, process_success status_ok (return_code-append [] 0x90 0x00))
      refl

module _ (b : Buffering) (sha256 : Bytes → Option Bytes) (outside : Outside b sha256)
    (engine_text : Text) where
  abbrev pub taken : Chunk → Machine b sha256 → Machine b sha256 × Verdict
  taken c m = process_chunk b sha256 c.type c.p2 c.buffer m

  -- What the call makes of the machine that has got all packets: what the review does to it, and the
  -- result of the review's response.
  abbrev pub reviewed : Machine b sha256 → Machine b sha256 × Result Failure SignResult
  reviewed m =
      let (m', response) = outside.review finished_with_metadata m in
      (m', settle_sign PayloadType.merkle_tree_last (outside.line statuses response))

  handled :
      (c : Chunk) (m : Machine b sha256)
      → handle_apdu b sha256 outside (sign_apdu c) m ≡ handle_sign b sha256 outside (taken c m)
  unfolding handle_apdu
  handled c m = refl

  pub handled_as :
      (c : Chunk) (m : Machine b sha256) (v : Verdict)
      → (taken c m).1 ≡ v
      → handle_apdu b sha256 outside (sign_apdu c) m
        ≡ handle_sign b sha256 outside ((taken c m).0, v)
  handled_as c m v h = handled c m ∙ ap (λ w. handle_sign b sha256 outside ((taken c m).0, w)) h

  sign_loop-Ends :
      (cs : List Chunk) (m : Machine b sha256) (result : SignResult)
      → Delivers outside.line
      → Ends (verdicts b sha256 (map packet cs) m)
      → sign_loop (device b sha256 outside) engine_text cs m result
        ≡ reviewed (process_chunks b sha256 (map packet cs) m)
  sign_loop-Ends [] m result delivers h = absurd h
  sign_loop-Ends (c ∷ []) m result delivers h =
      round_last (device b sha256 outside) engine_text c m result _ refl
      ∙ ap (λ r. (r.0, settle_sign c.type (outside.line statuses r.1)))
          (handled_as c m finished_with_metadata h)
      ∙ ap (λ x. ((reviewed (taken c m).0).0, x)) (settle_sign-any c.type _)
  sign_loop-Ends (c ∷ d ∷ cs) m result delivers (h, hs) =
      let t = device b sha256 outside in
      let handled = handled_as c m not_finished h in
      let reply : (t.send m (sign_apdu c)).1 ≡ resolved status_ok =
        ap (λ r. outside.line statuses r.1) handled ∙ delivers statuses [] 0x90 0x00 refl in
      round_accepted t engine_text c (d ∷ cs) m result no_signature_yet
        (ap (settle_sign c.type) reply ∙ settle_ok c.type) refl
      ∙ ap (λ s. sign_loop t engine_text (d ∷ cs) s no_signature_yet) (ap (λ r. r.0) handled)
      ∙ sign_loop-Ends (d ∷ cs) (taken c m).0 no_signature_yet delivers hs

  -- A call of `sign` with valid options and a path of a known net, for a script hash that the index
  -- has, on whose leaf's way each hash is right and whose metadata has at most 255 bytes, to a device
  -- that is recent enough: the device gets the packets that `signGetChunks` makes of the whole call, all
  -- and in order, and reviews a transaction with the leaf's metadata in store and a proof that ends in
  -- the tree's hash; the call resolves to what is made of the review's response. The line resolves on an accepted status word, and the device's buffer has
  -- room for the transaction.
  pub sign-handle_apdu :
      (merkle_index : MerkleIndex) (t : Tree) (path : PathArg) (options : JsNumber)
      (crypto_options : OptionsArg) (message : Bytes) (extra : Text) (serialized : Bytes)
      (at : LeafIndex) (metadata : Text) (m : Machine b sha256)
      → validate_crypto_options crypto_options ≡ ok options
      → serialize_path path options ≡ ok serialized
      → is_known_net (take 20 serialized) ≡ true
      → IsHash extra
      → lookup (take 16 extra) merkle_index ≡ leaf at
      → IsProved sha256 t at metadata
      → length (from_hex metadata) ≤ 255
      → Takes b
      → Delivers outside.line
      → is_old (get_version (device b sha256 outside) engine_text m).1 ≡ false
      → (chunks : List Chunk) × (ready : Machine b sha256) × (sign_get_chunks merkle_index t path
            options message
            (Sign.text extra)
          ≡ ok chunks)
        × (ready
            ≡ process_chunks b sha256
                (map packet chunks)
                (get_version (device b sha256 outside) engine_text m).0)
        × (ready.stored
            ≡ record { metadata = from_hex metadata; level = 5; hash = from_hex (hash t) })
        × (sign
              (device b sha256 outside)
              engine_text
              merkle_index
              t
              path
              message
              crypto_options
              (Sign.text extra)
              m
            ≡ ((reviewed ready).0, (reviewed ready).1 >>= λ r. ok (answer r)))
  sign-handle_apdu merkle_index t path options crypto_options message extra serialized at metadata m
        hv hs net hx hl proved fits takes delivers recent =
      let asked = (get_version (device b sha256 outside) engine_text m).0 in
      let (proof, made, ends, stored) =
        sign_get_chunks-process_chunks b sha256 merkle_index t path options message extra serialized
          at metadata asked hs net hx hl proved fits takes in
      let chunks = prepare_basic_chunks serialized message ++ proof in
      let all_taken : Ends (verdicts b sha256 (map packet chunks) asked) =
        subst Ends (sym ends) (Ends-basic b sha256 serialized message) in
      (
        chunks,
        process_chunks b sha256 (map packet chunks) asked,
        made,
        refl,
        stored,
        unfold sign_implementation in
            rw (hv, recent, made, sign_loop-Ends chunks asked not_initialized delivers all_taken)
              refl,
      )
