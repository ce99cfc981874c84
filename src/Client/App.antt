-- ===== src/Client/App.antt =====
-- The methods of FlowApp, over any transport. A method changes the transport's state by what it sends.
use app_flow.Prelude.{
  ℕ, ◌%◌, Option, none, some, List, [], ◌∷◌, if◌then◌else◌, Text, Bytes, codes, Result, ok, err,
  ◌>>=◌,
}
use app_flow.Js.Buffer.{truncated}
use app_flow.Js.Number.{JsNumber}
use app_flow.Path.{PathArg, OptionsArg, validate_crypto_options}
use app_flow.Common.{no_error, process_error_response}
use app_flow.Common.Version.{VersionReply, version, failed, parse_version}
use app_flow.Merkle.Tree.{Tree}
use app_flow.Sign.{Chunk, ExtraInfo, text, MerkleIndex, sign_get_chunks}
use app_flow.Client.Ins
use app_flow.Client.Transport.{Apdu, Reply, resolved, rejected, Transport}
use app_flow.Client.Responses.{
  AddressInfo, process_get_addr_response, AppInfo, process_app_info, SignResult, is_code,
  StatusInfo, process_slot_status, SlotInfo, process_get_slot, Acknowledgement,
  process_acknowledgement,
}
use app_flow.Client.Payloads.{
  Answer, Failure, answer, bad_account_response, bad_options, bad_print, bad_sign,
  bad_slot_response, bad_version_response, default_statuses, is_bad_slot, is_old, key_payload,
  lift_error, not_initialized, plain_apdu, refused, settle, settle_sign, sign_apdu, slot_payload,
}

-- `engine_text` is the engine's text of the `TypeError` that `processErrorResponse` throws.
module _ (t : Transport) (engine_text : Text) where
  -- A method's effect: the transport's new state, and what the promise settles to.
  abbrev pub Effect : Type 0 → Type 0
  Effect A = t.State × Result Failure A

  exchange : {A : Type 0} → t.State → Apdu → (Bytes → Result Failure A) → Effect (Answer A)
  exchange s apdu f = let sent = t.send s apdu in (sent.0, settle f sent.1)

  version_of : Reply → VersionReply
  version_of (resolved response) = version (parse_version response)
  version_of (rejected r) = elim (process_error_response r) [
    | ok e ↦ failed e
    | err _ ↦ failed (record { return_code = 0xffff; error_message = engine_text })
  ]

  -- The promise never rejects: the last `catch` handles the error of the first handler too.
  unfoldable pub get_version : t.State → t.State × VersionReply
  unfolding version_of
  get_version s = let sent = t.send s (plain_apdu Ins.get_version []) in (sent.0, version_of sent.1)

  unfoldable pub app_info : t.State → Effect (Answer AppInfo)
  unfolding exchange
  app_info s =
      exchange s
        (record {
          cla = 0xb0;
          ins = 0x01;
          p1 = 0;
          p2 = 0;
          body = [];
          status_list = default_statuses;
        })
        (λ response. ok (process_app_info response))

  send_key_apdu : ℕ → t.State → Result Failure Bytes → Effect (Answer AddressInfo)
  send_key_apdu p1 s (err e) = (s, err e)
  send_key_apdu p1 s (ok payload) =
      exchange s (record (plain_apdu Ins.get_pubkey payload) { p1 = p1 })
        (λ response. ok (process_get_addr_response response))

  unfoldable pub get_address_and_pub_key :
      PathArg → OptionsArg → t.State → Effect (Answer AddressInfo)
  unfolding send_key_apdu exchange
  get_address_and_pub_key path crypto_options s =
      send_key_apdu 0x00 s (key_payload path crypto_options)

  unfoldable pub show_address_and_pub_key :
      PathArg → OptionsArg → t.State → Effect (Answer AddressInfo)
  unfolding send_key_apdu exchange
  show_address_and_pub_key path crypto_options s =
      send_key_apdu 0x01 s (key_payload path crypto_options)

  -- The end of one round: `break` on a result that is no success.
  abbrev next :
      (SignResult → Effect SignResult) → t.State → Result Failure SignResult → Effect SignResult
  next more s (err e) = (s, err e)
  next more s (ok r) = if is_code r.return_code no_error then more r else (s, ok r)

  -- The loop over the packets; each round overwrites the result.
  unfoldable pub sign_loop : List Chunk → t.State → SignResult → Effect SignResult
  sign_loop [] s result = (s, ok result)
  sign_loop (c ∷ cs) s result =
      let sent = t.send s (sign_apdu c) in
      next (λ r. sign_loop cs sent.0 r) sent.0 (settle_sign c.type sent.1)

  send_chunks : t.State → Result Failure (List Chunk) → Effect (Answer SignResult)
  send_chunks s (err e) = (s, err e)
  send_chunks s (ok chunks) =
      let done = sign_loop chunks s not_initialized in (done.0, done.1 >>= λ r. ok (answer r))

  sign_validated :
      MerkleIndex
      → Tree
      → PathArg
      → Bytes
      → ExtraInfo
      → t.State
      → Result Failure JsNumber
      → Effect (Answer SignResult)
  sign_validated merkle_index merkle_tree path message extra s (err e) = (s, err e)
  sign_validated merkle_index merkle_tree path message extra s (ok options) =
      let asked = get_version s in
      let chunks =
        lift_error bad_sign (sign_get_chunks merkle_index merkle_tree path options message extra) in
      if is_old asked.1
      then (asked.0, ok (refused bad_version_response))
      else send_chunks asked.0 chunks

  -- `_signImplementation`
  unfoldable pub sign_implementation :
      MerkleIndex
      → Tree
      → PathArg
      → Bytes
      → OptionsArg
      → ExtraInfo
      → t.State
      → Effect (Answer SignResult)
  unfolding sign_validated send_chunks
  sign_implementation merkle_index merkle_tree path message crypto_options extra s =
      sign_validated merkle_index merkle_tree path message extra s
        (lift_error bad_options (validate_crypto_options crypto_options))

  abbrev pub sign :
      MerkleIndex
      → Tree
      → PathArg
      → Bytes
      → OptionsArg
      → ExtraInfo
      → t.State
      → Effect (Answer SignResult)
  sign = sign_implementation

  abbrev pub sign_message :
      MerkleIndex → Tree → PathArg → Bytes → OptionsArg → t.State → Effect (Answer SignResult)
  sign_message merkle_index merkle_tree path message crypto_options =
      sign_implementation merkle_index merkle_tree path message crypto_options
        (text (codes "Sign message"))

  unfoldable pub slot_status : t.State → Effect (Answer StatusInfo)
  unfolding exchange
  slot_status s =
      exchange s (plain_apdu Ins.slot_status []) (λ response. ok (process_slot_status response))

  unfoldable pub get_slot : JsNumber → t.State → Effect (Answer SlotInfo)
  unfolding exchange
  get_slot idx s =
      if is_bad_slot idx
      then (s, ok (refused bad_slot_response))
      else exchange s (plain_apdu Ins.get_slot (truncated idx % 256 ∷ []))
          (λ response. lift_error bad_print (process_get_slot idx response))

  send_slot : t.State → Result Failure (Option Bytes) → Effect (Answer Acknowledgement)
  send_slot s (err e) = (s, err e)
  send_slot s (ok none) = (s, ok (refused bad_account_response))
  send_slot s (ok (some payload)) =
      exchange s (plain_apdu Ins.set_slot payload)
        (λ response. ok (process_acknowledgement response))

  unfoldable pub set_slot :
      JsNumber → Text → PathArg → OptionsArg → t.State → Effect (Answer Acknowledgement)
  unfolding send_slot exchange
  set_slot idx account path crypto_options s =
      if is_bad_slot idx
      then (s, ok (refused bad_slot_response))
      else send_slot s (slot_payload idx account path crypto_options)
