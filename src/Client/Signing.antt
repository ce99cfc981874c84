-- ===== src/Client/Signing.antt =====
-- The loop of `_signImplementation`: in which order packets go out, where it stops, and what it returns.
use app_flow.Prelude.{
  ℕ, ◌-◌, ◌≡◌, refl, sym, ap, ap₂, ◌∙◌, true, false, some, List, [], ◌∷◌, ◌++◌, append_assoc, map,
  arith, Text, Bytes, length, length-append, take, take-append, take-append_eq, drop-append_eq, ok,
  codes,
}
use app_flow.Js.Buffer.{slice}
use app_flow.Js.Number.{JsNumber}
use app_flow.Path.{PathArg, OptionsArg, validate_crypto_options}
use app_flow.Merkle.Tree.{Tree}
use app_flow.Common.{no_error, return_code, error_code_to_string}
use app_flow.Common.ErrorCodes.{return_code-append}
use app_flow.Sign.{Chunk, ExtraInfo, MerkleIndex, sign_get_chunks, sign_is_last_apdu}
use app_flow.Client.Transport.{Reply, resolved, Transport, deliver}
use app_flow.Client.Responses.{SignResult, is_code, process_sign_response}
use app_flow.Client.Payloads.{answer, sign_apdu, settle_sign, not_initialized, is_old}
use app_flow.Client.App.{get_version, sign_loop, sign_implementation}

-- The packet is answered by a success.
abbrev pub IsAccepted : Chunk → Reply → Type 0
IsAccepted c reply =
    (r : SignResult) × (settle_sign c.type reply ≡ ok r) × (is_code r.return_code no_error ≡ true)

-- Every test in `signIsLastAPDU` but the last may fail, and the last is a number that is not 0.
pub sign_is_last_apdu_always : (type : ℕ) → sign_is_last_apdu type ≡ true
unfolding sign_is_last_apdu
sign_is_last_apdu_always type = ground arith

-- The result that is made of a successful response: a compact signature of 65 bytes, then one in DER.
abbrev pub signed : Bytes → Bytes → SignResult
signed compact der = record {
  return_code = some 0x9000;
  error_message = codes "No errors";
  signature_compact = some compact;
  signature_der = some der;
}

pub process_success :
    (response : Bytes)
    → return_code response ≡ some 0x9000
    → process_sign_response true response
      ≡ signed (take 65 response) (slice response 65 (length response - 2))
unfolding process_sign_response error_code_to_string
process_success response e = rw e

status_ok : (compact der : Bytes) → return_code (compact ++ (der ++ 0x90 ∷ 0x00 ∷ [])) ≡ some 0x9000
status_ok compact der =
    ap return_code (sym (append_assoc compact der (0x90 ∷ 0x00 ∷ [])))
    ∙ return_code-append (compact ++ der) 0x90 0x00

der_slice :
    (compact der : Bytes)
    → length compact ≡ 65
    → let response = compact ++ (der ++ 0x90 ∷ 0x00 ∷ []) in
      slice response 65 (length response - 2) ≡ der
der_slice compact der h =
    let tail = der ++ 0x90 ∷ 0x00 ∷ [] in
    let n : length (compact ++ tail) - 2 - 65 ≡ length der =
      omega (arith, length-append compact tail, length-append der (0x90 ∷ 0x00 ∷ [])) in
    ap₂ take n (drop-append_eq 65 compact tail h) ∙ take-append der (0x90 ∷ 0x00 ∷ [])

settle_signed :
    (type : ℕ) (compact der : Bytes)
    → length compact ≡ 65
    → settle_sign type (resolved (compact ++ (der ++ 0x90 ∷ 0x00 ∷ []))) ≡ ok (signed compact der)
unfolding settle_sign
settle_signed type compact der h = rw (
  sign_is_last_apdu_always type,
  process_success (compact ++ (der ++ 0x90 ∷ 0x00 ∷ [])) (status_ok compact der),
  take-append_eq 65 compact (der ++ 0x90 ∷ 0x00 ∷ []) h,
  der_slice compact der h,
)

module _ (t : Transport) (engine_text : Text) where
  abbrev pub AllAccepted : t.State → List Chunk → Type 0
  AllAccepted s [] = Unit
  AllAccepted s (c ∷ cs) =
      IsAccepted c (t.send s (sign_apdu c)).1 × AllAccepted (t.send s (sign_apdu c)).0 cs

  pub round_accepted :
      (c : Chunk) (cs : List Chunk) (s : t.State) (result r : SignResult)
      → settle_sign c.type (t.send s (sign_apdu c)).1 ≡ ok r
      → is_code r.return_code no_error ≡ true
      → sign_loop t engine_text (c ∷ cs) s result
        ≡ sign_loop t engine_text cs (t.send s (sign_apdu c)).0 r
  unfolding sign_loop
  round_accepted c cs s result r e k = rw (e, k)

  round_broken :
      (c : Chunk) (cs : List Chunk) (s : t.State) (result r : SignResult)
      → settle_sign c.type (t.send s (sign_apdu c)).1 ≡ ok r
      → is_code r.return_code no_error ≡ false
      → sign_loop t engine_text (c ∷ cs) s result ≡ ((t.send s (sign_apdu c)).0, ok r)
  unfolding sign_loop
  round_broken c cs s result r e k = rw (e, k)

  -- The packets in front are sent in order, and their results are dropped.
  sign_loop-append :
      (front : List Chunk) (c : Chunk) (back : List Chunk) (s : t.State) (result : SignResult)
      → AllAccepted s front
      → (result' : SignResult) × (sign_loop t engine_text (front ++ c ∷ back) s result
          ≡ sign_loop t engine_text (c ∷ back) (deliver t s (map sign_apdu front)) result')
  sign_loop-append [] c back s result _ = (result, refl)
  sign_loop-append (d ∷ front) c back s result ((r, e, k), h) =
      let (result', more) = sign_loop-append front c back (t.send s (sign_apdu d)).0 r h in
      (result', round_accepted d (front ++ c ∷ back) s result r e k ∙ more)

  -- The loop stops at the first packet whose answer is no success: the packets up to it have been
  -- sent in order, none behind it, and the result is that answer.
  pub sign_loop_stops :
      (front : List Chunk) (c : Chunk) (back : List Chunk) (s : t.State) (result r : SignResult)
      → AllAccepted s front
      → settle_sign c.type (t.send (deliver t s (map sign_apdu front)) (sign_apdu c)).1 ≡ ok r
      → is_code r.return_code no_error ≡ false
      → sign_loop t engine_text (front ++ c ∷ back) s result
        ≡ ((t.send (deliver t s (map sign_apdu front)) (sign_apdu c)).0, ok r)
  sign_loop_stops front c back s result r h e k =
      let (result', first) = sign_loop-append front c back s result h in
      first ∙ round_broken c back _ result' r e k

  sign_loop_last :
      (front : List Chunk) (c : Chunk) (s : t.State) (result r : SignResult)
      → AllAccepted s front
      → settle_sign c.type (t.send (deliver t s (map sign_apdu front)) (sign_apdu c)).1 ≡ ok r
      → is_code r.return_code no_error ≡ true
      → sign_loop t engine_text (front ++ c ∷ []) s result
        ≡ ((t.send (deliver t s (map sign_apdu front)) (sign_apdu c)).0, ok r)
  sign_loop_last front c s result r h e k =
      let (result', first) = sign_loop-append front c [] s result h in
      first ∙ round_accepted c [] _ result' r e k ∙ unfold sign_loop in refl

  -- If every packet is accepted and the last is answered by a signature, the packets have been sent
  -- in order, after the query of the version, and the call resolves to the two forms of the signature.
  pub sign_implementation_signs :
      (merkle_index : MerkleIndex) (merkle_tree : Tree) (path : PathArg) (message : Bytes)
      (crypto_options : OptionsArg) (extra : ExtraInfo) (s : t.State) (options : JsNumber)
      (front : List Chunk) (c : Chunk) (compact der : Bytes)
      → validate_crypto_options crypto_options ≡ ok options
      → is_old (get_version t engine_text s).1 ≡ false
      → sign_get_chunks merkle_index merkle_tree path options message extra ≡ ok (front ++ c ∷ [])
      → let s1 = (get_version t engine_text s).0 in
        let s2 = deliver t s1 (map sign_apdu front) in
        AllAccepted s1 front
        → length compact ≡ 65
        → (t.send s2 (sign_apdu c)).1 ≡ resolved (compact ++ (der ++ 0x90 ∷ 0x00 ∷ []))
        → sign_implementation t engine_text merkle_index merkle_tree path message crypto_options
            extra s
          ≡ ((t.send s2 (sign_apdu c)).0, ok (answer (signed compact der)))
  sign_implementation_signs merkle_index merkle_tree path message crypto_options extra s options
        front c compact der hv ho hc ha hl hr =
      unfold sign_implementation in
      rw (
        hv,
        ho,
        hc,
        sign_loop_last front c (get_version t engine_text s).0 not_initialized (signed compact der)
            ha (ap (settle_sign c.type) hr ∙ settle_signed c.type compact der hl) refl,
      )
