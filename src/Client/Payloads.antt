-- ===== src/Client/Payloads.antt =====
-- What the methods of FlowApp send, and what they resolve to or are rejected with.
use app_flow.Prelude.{
  ℕ, ◌%◌, Bool, true, false, ◌||◌, Option, none, some, List, [], ◌∷◌, ◌++◌, ◌==◌, if◌then◌else◌,
  Text, Bytes, codes, length, Result, ok, err, ◌>>=◌,
}
use app_flow.Js.Hex.{from_hex}
use app_flow.Js.Buffer.{truncated}
use app_flow.Js.Number.{JsNumber, is_nan, is_negative, gt}
use app_flow.Path.{
  PathArg, PathError, PrintError, OptionsArg, OptionsError, serialize_path, validate_crypto_options,
}
use app_flow.Common.{cla, Thrown, ErrorResponse, process_error_response}
use app_flow.Common.Version.{VersionReply, compare_version, less, same, greater}
use app_flow.Sign.{SignError, Chunk, sign_is_last_apdu}
use app_flow.Client.Ins
use app_flow.Client.Transport.{Apdu, Reply, resolved, rejected}
use app_flow.Client.Responses.{SignResult, no_signature, process_sign_response}

-- What the promise of a method is rejected with.
pub data Failure : Type 0 where
  bad_options : OptionsError → Failure
  bad_path : PathError → Failure
  bad_sign : SignError → Failure
  bad_print : PrintError → Failure
  thrown : Thrown → Failure

abbrev pub lift_error {ℓ κ} :
    {E : Type ℓ} {A : Type κ} → (E → Failure) → Result E A → Result Failure A
lift_error f (ok a) = ok a
lift_error f (err e) = err (f e)

-- What a method resolves to: its own result, or an object with a code and a message only.
pub data Answer {ℓ} (A : Type ℓ) : Type ℓ where
  answer : A → Answer A
  refused : ErrorResponse → Answer A

-- `.then(f, processErrorResponse)`
unfoldable pub settle :
    {A : Type 0} → (Bytes → Result Failure A) → Reply → Result Failure (Answer A)
settle f (resolved response) = f response >>= λ a. ok (answer a)
settle f (rejected r) = lift_error thrown (process_error_response r) >>= λ e. ok (refused e)

abbrev pub default_statuses : List ℕ
default_statuses = 0x9000 ∷ []

-- An instruction with no parameters.
abbrev pub plain_apdu : ℕ → Bytes → Apdu
plain_apdu ins body = record {
  cla = cla;
  ins = ins;
  p1 = 0;
  p2 = 0;
  body = body;
  status_list = default_statuses;
}

abbrev pub sign_apdu : Chunk → Apdu
sign_apdu c = record {
  cla = cla;
  ins = Ins.sign;
  p1 = c.type;
  p2 = c.p2;
  body = c.buffer;
  status_list = 0x9000 ∷ 0x6984 ∷ 0x6a80 ∷ [];
}

-- `isNaN(slotIdx) || slotIdx < 0 || slotIdx > 63`
abbrev pub is_bad_slot : JsNumber → Bool
is_bad_slot idx = is_nan idx || is_negative idx || gt idx 63

abbrev pub bad_slot_response : ErrorResponse
bad_slot_response = record {
  return_code = 0;
  error_message = codes "slotIdx should be a number between 0 and 63 inclusively";
}

abbrev pub bad_account_response : ErrorResponse
bad_account_response = record {
  return_code = 0;
  error_message = codes "account is expected to be a hexstring 16 characters long";
}

abbrev pub bad_version_response : ErrorResponse
bad_version_response = record {
  return_code = 4;
  error_message = codes "Ledger version not supported";
}

-- The payload of the key instructions, or what is thrown before anything is sent.
unfoldable pub key_payload : PathArg → OptionsArg → Result Failure Bytes
key_payload path crypto_options = do
  options ← lift_error bad_options (validate_crypto_options crypto_options)
  lift_error bad_path (serialize_path path options)

-- The payload of `setSlot`: `none` where the account does not decode to eight bytes.
unfoldable pub slot_payload : JsNumber → Text → PathArg → OptionsArg → Result Failure (Option Bytes)
slot_payload idx account path crypto_options = do
  options ← lift_error bad_options (validate_crypto_options crypto_options)
  serialized_path ← lift_error bad_path (serialize_path path options)
  ok (
      if length (from_hex account) == 8
      then some (truncated idx % 256 ∷ (from_hex account ++ serialized_path))
      else none)

-- The result of one SIGN packet, as the loop keeps it.
unfoldable pub settle_sign : ℕ → Reply → Result Failure SignResult
unfolding no_signature
settle_sign type (resolved response) = ok (process_sign_response (sign_is_last_apdu type) response)
settle_sign type (rejected r) = do
  e ← lift_error thrown (process_error_response r)
  ok (no_signature (some e.return_code) e.error_message)

abbrev pub not_initialized : SignResult
not_initialized = record {
  return_code = some 0xffff;
  error_message = codes "Result not initialized";
  signature_compact = none;
  signature_der = none;
}

-- Whether the version gate of signing stops the call.
abbrev pub is_old : VersionReply → Bool
is_old v = elim (compare_version v 0 12 0) [ less ↦ true | same ↦ false | greater ↦ false ]
