-- ===== src/Client/Responses.antt =====
-- The handlers of responses in js/src/index.js.
use Prim.Native.Nat.{bit_and}
use app_flow.Prelude.{
  ℕ, ◌+◌, ◌-◌, ◌%◌, Bool, false, not, Option, none, some, ◌++◌, ltb, leb, ◌==◌, if◌then◌else◌, Text,
  Bytes, codes, length, get_elem?, take, drop, map, Result, ok, ◌>>=◌, ◌&&◌, ◌||◌,
}
use app_flow.Js.Buffer.{slice, from_le}
use app_flow.Js.Hex.{to_hex}
use app_flow.Js.Utf8.{to_string}
use app_flow.Js.Number.{JsNumber}
use app_flow.Path.{PrintError, print_bip44_path}
use app_flow.Common.{StatusWord, return_code, error_code_to_string, pklen}

-- `buffer.toString("ascii")`
abbrev pub ascii : Bytes → Text
ascii = map (λ b. b % 128)

-- `response.slice(0, -2)`
abbrev pub without_status : Bytes → Bytes
without_status response = take (length response - 2) response

pub record AddressInfo : Type 0 where
  pub public_key : Bytes
  pub address : Text
  pub return_code : StatusWord
  pub error_message : Text

unfoldable pub process_get_addr_response : Bytes → AddressInfo
process_get_addr_response response = record {
  public_key = take pklen response;
  address = to_string (without_status (drop pklen response));
  return_code = return_code response;
  error_message = error_code_to_string (return_code response);
}

-- `flags_value` is undefined where the byte is missing; the flags are then false, as of NaN.
pub record AppInfo : Type 0 where
  pub return_code : StatusWord
  pub error_message : Text
  pub app_name : Text
  pub app_version : Text
  pub flag_len : Option ℕ
  pub flags_value : Option ℕ
  pub flag_recovery : Bool
  pub flag_signed_mcu_code : Bool
  pub flag_onboarded : Bool
  pub flag_pin_validated : Bool

-- What the response says where its format is known.
record Details : Type 0 where
  name : Text
  version : Text
  len : Option ℕ
  flags : Option ℕ

-- A slice that begins or ends at an undefined length is empty from there.
length_at : Bytes → ℕ → ℕ
length_at response i = elim (get_elem? response i) [ none ↦ 0 | some n ↦ n ]

read_details : Bytes → Details
read_details response =
    let name_len = length_at response 1 in
    let idx = 2 + name_len in
    let version_len = length_at response idx in
    let after = idx + 1 + version_len in
    record {
      name = ascii (slice response 2 (2 + name_len));
      version = ascii (slice response (idx + 1) after);
      len = get_elem? response after;
      flags = get_elem? response (after + 1);
    }

no_details : Details
no_details = record { name = codes "err"; version = codes "err"; len = some 0; flags = some 0 }

has_flag : Option ℕ → ℕ → Bool
has_flag none mask = false
has_flag (some value) mask = not (bit_and value mask == 0)

details_of : Bytes → Details
unfolding read_details no_details length_at
details_of response = elim (get_elem? response 0) [
  | none ↦ no_details
  | some format_id ↦ if format_id == 1 then read_details response else no_details
]

app_info_of : Bytes → Details → AppInfo
app_info_of response d = record {
  return_code = return_code response;
  error_message = error_code_to_string (return_code response);
  app_name = d.name;
  app_version = d.version;
  flag_len = d.len;
  flags_value = d.flags;
  flag_recovery = has_flag d.flags 1;
  flag_signed_mcu_code = has_flag d.flags 2;
  flag_onboarded = has_flag d.flags 4;
  flag_pin_validated = has_flag d.flags 128;
}

-- The handler in `appInfo`. What it puts into `result` for an unknown format is not returned.
unfoldable pub process_app_info : Bytes → AppInfo
unfolding details_of app_info_of has_flag
process_app_info response = app_info_of response (details_of response)

-- The result of signing; an absent signature is null, or undefined after a rejection.
pub record SignResult : Type 0 where
  pub return_code : StatusWord
  pub error_message : Text
  pub signature_compact : Option Bytes
  pub signature_der : Option Bytes

unfoldable pub no_signature : StatusWord → Text → SignResult
no_signature code message = record {
  return_code = code;
  error_message = message;
  signature_compact = none;
  signature_der = none;
}

-- `returnCode === code`
abbrev pub is_code : StatusWord → ℕ → Bool
is_code none code = false
is_code (some n) code = n == code

-- The handler of one SIGN response; `is_last` is what `signIsLastAPDU` says of its packet.
unfoldable pub process_sign_response : Bool → Bytes → SignResult
unfolding no_signature
process_sign_response is_last response =
    let code = return_code response in
    let message = error_code_to_string code in
    if is_code code 0x6a80 || is_code code 0x6984
    then no_signature code (message ++ codes " : " ++ ascii (without_status response))
    else if is_code code 0x9000 && is_last
    then record {
      return_code = code;
      error_message = message;
      signature_compact = some (take 65 response);
      signature_der = some (slice response 65 (length response - 2));
    }
    else no_signature code message

pub record StatusInfo : Type 0 where
  pub return_code : StatusWord
  pub error_message : Text
  pub status : Bytes

unfoldable pub process_slot_status : Bytes → StatusInfo
process_slot_status response = record {
  return_code = return_code response;
  error_message = error_code_to_string (return_code response);
  status = take 64 response;
}

-- A 16-bit value read as a signed number: its sign and size.
pub data Int16 : Type 0 where
  plus : ℕ → Int16
  minus : ℕ → Int16

abbrev pub signed16 : ℕ → Int16
signed16 w = if ltb w 0x8000 then plus w else minus (0x1_0000 - w)

-- `options` is null where the response has none.
pub record SlotInfo : Type 0 where
  pub return_code : StatusWord
  pub error_message : Text
  pub slot_idx : JsNumber
  pub account : Text
  pub path : Text
  pub options : Option Int16

-- The handler in `getSlot`; the print of the path throws on a short response.
unfoldable pub process_get_slot : JsNumber → Bytes → Result PrintError SlotInfo
process_get_slot slot_idx response = do
  path ← print_bip44_path (slice response 8 28)
  ok (record {
    return_code = return_code response;
    error_message = error_code_to_string (return_code response);
    slot_idx = slot_idx;
    account = to_hex (take 8 response);
    path = path;
    options =
        if leb 32 (length response) then some (signed16 (from_le (slice response 28 30))) else none;
  })

-- What `setSlot` resolves to.
pub record Acknowledgement : Type 0 where
  pub return_code : StatusWord
  pub error_message : Text

unfoldable pub process_acknowledgement : Bytes → Acknowledgement
process_acknowledgement response = record {
  return_code = return_code response;
  error_message = error_code_to_string (return_code response);
}
