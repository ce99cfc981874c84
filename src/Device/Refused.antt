-- ===== src/Device/Refused.antt =====
-- A call of `FlowApp.sign` in which the device refuses the metadata or its proof.
use app_flow.Prelude.{
  ℕ, ◌≤◌, ◌≡◌, ◌≢◌, refl, sym, subst, ap, ◌∙◌, false, Option, some, none, List, [], ◌∷◌, ◌++◌, map,
  arith, Text, Bytes, All, ok, codes,
}
use app_flow.Js.Number.{JsNumber}
use app_flow.Path.{PathArg, OptionsArg, validate_crypto_options}
use app_flow.Merkle.Tree.{Tree}
use app_flow.Common
use app_flow.Sign.{Chunk, ExtraInfo, MerkleIndex, sign_get_chunks}
use app_flow.Sign.PayloadType
use app_flow.Client.Transport.{resolved, deliver}
use app_flow.Client.Responses.{SignResult, process_sign_response}
use app_flow.Client.Payloads.{answer, sign_apdu, settle_sign, not_initialized, is_old}
use app_flow.Client.App.{get_version, sign, sign_implementation}
use app_flow.Client.Signing.{AllAccepted, sign_loop_stops}
use app_flow.Device.Stored.{
  Stored, init_stored, ParserStatus, parser_ok, metadata_error, unexpected_error, store_tx_metadata,
  validate_level,
}
use app_flow.Device.Chunks.{
  Buffering, Machine, Verdict, not_finished, finished_with_metadata, thrown, data_invalid, keep,
  process_chunk,
}
use app_flow.Device.Chain.{process_chunks, verdicts}
use app_flow.Device.Accepts.{packet}
use app_flow.Device.Handler.{Outside, device}
use app_flow.Device.Session.{Delivers, statuses, taken, handled_as, no_signature_yet, settle_ok}

-- The types of the packets with the metadata and the levels of its proof.
abbrev pub IsProofType : ℕ → Type 0
IsProofType type = (PayloadType.tx_metadata ≤ type) × (type ≤ PayloadType.merkle_tree_last)

abbrev pub IsGoing : Verdict → Type 0
IsGoing v = v ≡ not_finished

-- What a call resolves to where the device says that the data is invalid.
abbrev pub invalid_result : SignResult
invalid_result = record {
  return_code = some 0x6984;
  error_message = codes "Data is invalid : ";
  signature_compact = none;
  signature_der = none;
}

settle_invalid : (type : ℕ) → settle_sign type (resolved (0x69 ∷ 0x84 ∷ [])) ≡ ok invalid_result
unfolding settle_sign process_sign_response Common.return_code Common.error_code_to_string
settle_invalid type = refl

module _ (b : Buffering) (sha256 : Bytes → Option Bytes) where
  -- A refusal has deleted what was in store.
  IsCleared : Machine b sha256 × Verdict → Type 0
  IsCleared (m, v) = v ≡ thrown data_invalid → m.stored ≡ init_stored

  unless : (m : Machine b sha256) (v : Verdict) → v ≢ thrown data_invalid → IsCleared (m, v)
  unfolding IsCleared
  unless m v never h = absurd (never h)

  keep-IsCleared :
      (v : Verdict) (m : Machine b sha256) (r : Stored × ParserStatus)
      → v ≢ thrown data_invalid
      → IsCleared (keep b sha256 v m r)
  unfolding IsCleared
  keep-IsCleared v m (s, parser_ok) never h = absurd (never h)
  keep-IsCleared v m (s, metadata_error) never h = refl
  keep-IsCleared v m (s, unexpected_error) never h = refl

  process_chunk-IsCleared :
      (c : Chunk) (m : Machine b sha256)
      → IsProofType c.type
      → IsCleared (process_chunk b sha256 c.type c.p2 c.buffer m)
  unfolding process_chunk
  process_chunk-IsCleared c m (low, high) =
      let other = unless m in
      let stored =
        keep-IsCleared not_finished m (store_tx_metadata sha256 c.buffer m.stored) (λ e. cc) in
      let level =
        keep-IsCleared not_finished m (validate_level sha256 c.buffer m.stored) (λ e. cc) in
      let last =
        keep-IsCleared finished_with_metadata m (validate_level sha256 c.buffer m.stored)
          (λ e. cc) in
      grind (arith, other, stored, level, last)

  cleared :
      (r : Machine b sha256 × Verdict)
      → IsCleared r
      → r.1 ≡ thrown data_invalid
      → r.0.stored ≡ init_stored
  unfolding IsCleared
  cleared (m, v) h = h

module _ (b : Buffering) (sha256 : Bytes → Option Bytes) (outside : Outside b sha256)
    (engine_text : Text) where
  AllAccepted-verdicts :
      (cs : List Chunk) (m : Machine b sha256)
      → Delivers outside.line
      → All IsGoing (verdicts b sha256 (map packet cs) m)
      → AllAccepted (device b sha256 outside) engine_text m cs
        × (deliver (device b sha256 outside) m (map sign_apdu cs)
            ≡ process_chunks b sha256 (map packet cs) m)
  AllAccepted-verdicts [] m delivers h = (tt, refl)
  AllAccepted-verdicts (c ∷ cs) m delivers (h, hs) =
      let t = device b sha256 outside in
      let handled = handled_as b sha256 outside engine_text c m not_finished h in
      let moved : (taken b sha256 outside engine_text c m).0 ≡ (t.send m (sign_apdu c)).0 =
        sym (ap (λ r. r.0) handled) in
      let reply : (t.send m (sign_apdu c)).1 ≡ resolved (0x90 ∷ 0x00 ∷ []) =
        ap (λ r. outside.line statuses r.1) handled ∙ delivers statuses [] 0x90 0x00 refl in
      let (accepted, delivered) =
        AllAccepted-verdicts cs (taken b sha256 outside engine_text c m).0 delivers hs in
      (
        (
          (no_signature_yet, ap (settle_sign c.type) reply ∙ settle_ok c.type, refl),
          subst (λ s. AllAccepted t engine_text s cs) moved accepted,
        ),
        ap (λ s. deliver t s (map sign_apdu cs)) (sym moved) ∙ delivered,
      )

  -- If a recent device takes the packets in front, and answers one of the metadata or its proof with
  -- 0x6984, then a call of `sign` sends nothing behind it and resolves to that code without a signature,
  -- and the device has nothing in store any more. The line resolves on an accepted status word.
  pub sign_refused :
      (merkle_index : MerkleIndex) (t : Tree) (path : PathArg) (options : JsNumber)
      (crypto_options : OptionsArg) (message : Bytes) (extra : ExtraInfo) (front : List Chunk)
      (c : Chunk) (back : List Chunk) (m : Machine b sha256)
      → validate_crypto_options crypto_options ≡ ok options
      → is_old (get_version (device b sha256 outside) engine_text m).1 ≡ false
      → sign_get_chunks merkle_index t path options message extra ≡ ok (front ++ c ∷ back)
      → Delivers outside.line
      → let asked = (get_version (device b sha256 outside) engine_text m).0 in
        All IsGoing (verdicts b sha256 (map packet front) asked)
        → IsProofType c.type
        → (process_chunk b sha256 c.type c.p2 c.buffer
            (process_chunks b sha256 (map packet front) asked)).1
          ≡ thrown data_invalid
        → let r =
            process_chunk b sha256 c.type c.p2 c.buffer
              (process_chunks b sha256 (map packet front) asked) in
          (sign
              (device b sha256 outside)
              engine_text
              merkle_index
              t
              path
              message
              crypto_options
              extra
              m
            ≡ (r.0, ok (answer invalid_result)))
          × (r.0.stored ≡ init_stored)
  sign_refused merkle_index t path options crypto_options message extra front c back m hv recent
        made delivers going proof refused =
      let asked = (get_version (device b sha256 outside) engine_text m).0 in
      let before = process_chunks b sha256 (map packet front) asked in
      let (accepted, delivered) = AllAccepted-verdicts front asked delivers going in
      let handled =
        handled_as b sha256 outside engine_text c before (thrown data_invalid) refused in
      let reply =
        ap (λ r. outside.line statuses r.1) handled ∙ delivers statuses [] 0x69 0x84 refl in
      let stops =
        sign_loop_stops (device b sha256 outside) engine_text front c back asked not_initialized
          invalid_result accepted
          (ap (λ s. settle_sign c.type ((device b sha256 outside).send s (sign_apdu c)).1) delivered
            ∙ ap (settle_sign c.type) reply
            ∙ settle_invalid c.type)
          refl in
      let after =
        ap (λ s. ((device b sha256 outside).send s (sign_apdu c)).0) delivered
        ∙ ap (λ r. r.0) handled in
      (
        unfold sign_implementation in
            rw (hv, recent, made, stops) (ap (λ s. (s, ok (answer invalid_result))) after),
        cleared b sha256 _ (process_chunk-IsCleared b sha256 c before proof) refused,
      )
