-- ===== src/Common.antt =====
-- js/src/common.js: status words and their texts, errors, and the version of the device's app.
pub mod Version
pub mod ErrorCodes
use app_flow.Prelude.{
  ℕ, zero, suc, ◌+◌, ◌-◌, ◌*◌, Option, none, some, List, [], ◌∷◌, ◌++◌, ◌==◌, if◌then◌else◌, Text,
  Bytes, codes, length, drop, get_elem?, Result, ok, err,
}
use app_flow.Prelude.Digits.{format}

abbrev pub cla : ℕ
cla = 0x33

abbrev pub pklen : ℕ
pklen = 65

-- ERROR_CODE.NoError
abbrev pub no_error : ℕ
no_error = 0x9000

-- ERROR_DESCRIPTION
abbrev pub error_description : List (ℕ × Text)
error_description =
    (1, codes "U2F: Unknown")
    ∷ (2, codes "U2F: Bad request")
    ∷ (3, codes "U2F: Configuration unsupported")
    ∷ (4, codes "U2F: Device Ineligible")
    ∷ (5, codes "U2F: Timeout")
    ∷ (14, codes "Timeout")
    ∷ (0x9000, codes "No errors")
    ∷ (0x9001, codes "Device is busy")
    ∷ (0x6802, codes "Error deriving keys")
    ∷ (0x6400, codes "Execution Error")
    ∷ (0x6700, codes "Wrong Length")
    ∷ (0x6982, codes "Empty Buffer")
    ∷ (0x6983, codes "Output buffer too small")
    ∷ (0x6984, codes "Data is invalid")
    ∷ (0x6985, codes "Conditions not satisfied")
    ∷ (0x6986, codes "Transaction rejected")
    ∷ (0x6a80, codes "Bad key handle")
    ∷ (0x6b00, codes "Invalid P1/P2")
    ∷ (0x6d00, codes "Instruction not supported")
    ∷ (0x6e00, codes "App does not seem to be open")
    ∷ (0x6f00, codes "Unknown error")
    ∷ (0x6f01, codes "Sign/verify error")
    ∷ []

-- A numeric key of an object.
unfoldable pub lookup_code : ℕ → List (ℕ × Text) → Option Text
lookup_code code [] = none
lookup_code code ((k, v) ∷ rest) = if k == code then some v else lookup_code code rest

describe : ℕ → Option Text → Text
describe code none = codes "Unknown Status Code: " ++ format code
describe code (some message) = message

-- A status word that two bytes give, or NaN where a byte is missing.
abbrev pub StatusWord : Type 0
StatusWord = Option ℕ

unfoldable pub error_code_to_string : StatusWord → Text
unfolding describe lookup_code
error_code_to_string none = codes "Unknown Status Code: NaN"
error_code_to_string (some code) = describe code (lookup_code code error_description)

-- `response.slice(-2)`
abbrev pub last_two : Bytes → Bytes
last_two response = drop (length response - 2) response

word_of : Bytes → StatusWord
word_of (a ∷ b ∷ _) = some (a * 256 + b)
word_of _ = none

-- `errorCodeData[0] * 256 + errorCodeData[1]`
unfoldable pub return_code : Bytes → StatusWord
unfolding word_of
return_code response = word_of (last_two response)

-- What a promise is rejected with: undefined or null; an object with a `statusCode`; one without,
-- with a `returnCode` and an `errorMessage`; any other value, with the text of its `toString`.
pub data Rejection : Type 0 where
  nothing : Rejection
  status : ℕ → Rejection
  shaped : ℕ → Text → Rejection
  other : Text → Rejection

-- A `TypeError`, from a call of a method of undefined or null.
pub data Thrown : Type 0 where
  type_error : Thrown

pub record ErrorResponse : Type 0 where
  pub return_code : ℕ
  pub error_message : Text

unfoldable pub process_error_response : Rejection → Result Thrown ErrorResponse
process_error_response nothing = err type_error
process_error_response (status code) =
    ok (record { return_code = code; error_message = error_code_to_string (some code) })
process_error_response (shaped code message) =
    ok (record { return_code = code; error_message = message })
process_error_response (other text) = ok (record { return_code = 0xffff; error_message = text })
