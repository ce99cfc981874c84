-- ===== src/Common/Version.antt =====
-- `getVersion`'s reading of a response, and `compareVersion`.
use app_flow.Prelude.{
  ℕ, zero, suc, ◌+◌, ◌-◌, ◌*◌, ◌/◌, ◌%◌, ◌^◌, ◌<◌, ◌≡◌, ◌↔◌, ◌⊎◌, Bool, false, not, Option, none,
  some, [], ◌∷◌, arith, ltb, ◌==◌, if◌then◌else◌, Text, Bytes, get_elem?,
}
use app_flow.Js.Hex.{hex_digit}
use app_flow.Common.{StatusWord, return_code, error_code_to_string, ErrorResponse}

pub record VersionInfo : Type 0 where
  pub return_code : StatusWord
  pub error_message : Text
  pub test_mode : Bool
  pub major : Option ℕ
  pub minor : Option ℕ
  pub patch : Option ℕ
  pub device_locked : Bool
  pub target_id : Text

-- What `getVersion` resolves to: the version, or the object that `processErrorResponse` makes.
pub data VersionReply : Type 0 where
  version : VersionInfo → VersionReply
  failed : ErrorResponse → VersionReply

-- `response[i] === n`
abbrev is_at : Bytes → ℕ → ℕ → Bool
is_at response i n = elim (get_elem? response i) [ none ↦ false | some b ↦ b == n ]

-- A number in base 16, in front of `out`; 8 digits are enough for 32 bits.
hex_digits : ℕ → ℕ → Text → Text
hex_digits zero n out = out
hex_digits (suc fuel) n out =
    let more = hex_digits fuel (n / 16) (hex_digit (n % 16) ∷ out) in if n == 0 then out else more

-- `n.toString(16)` for a 32-bit pattern that stands for a signed number.
signed_hex : ℕ → Text
signed_hex n =
    if n == 0
    then b'0' ∷ []
    else if ltb n (2 ^ 31)
    then hex_digits 8 n []
    else b'-' ∷ hex_digits 8 (2 ^ 32 - n) []

-- The four bytes from index 5 on, as `<<` and `+` join them; 0 where the response is too short.
target_bits : Bytes → ℕ
target_bits (_ ∷ _ ∷ _ ∷ _ ∷ _ ∷ a ∷ b ∷ c ∷ d ∷ _) = a * 2 ^ 24 + b * 2 ^ 16 + c * 2 ^ 8 + d
target_bits _ = 0

unfoldable pub parse_version : Bytes → VersionInfo
unfolding target_bits signed_hex hex_digits
parse_version response = record {
  return_code = return_code response;
  error_message = error_code_to_string (return_code response);
  test_mode = not (is_at response 0 0);
  major = get_elem? response 1;
  minor = get_elem? response 2;
  patch = get_elem? response 3;
  device_locked = is_at response 4 1;
  target_id = signed_hex (target_bits response);
}

pub data Comparison : Type 0 where
  less same greater : Comparison

-- One line of `compareVersion`; undefined is neither equal to a number nor less.
compare_part : Option ℕ → ℕ → Comparison → Comparison
compare_part none want rest = greater
compare_part (some have) want rest =
    if have == want then rest else if ltb have want then less else greater

unfoldable pub compare_version : VersionReply → ℕ → ℕ → ℕ → Comparison
unfolding compare_part
compare_version (failed e) major minor patch = greater
compare_version (version v) major minor patch =
    compare_part v.major major (compare_part v.minor minor (compare_part v.patch patch same))

-- The lexicographic order of versions.
abbrev pub IsBefore : ℕ → ℕ → ℕ → ℕ → ℕ → ℕ → Type 0
IsBefore a b c major minor patch =
    (a < major) ⊎ ((a ≡ major) × ((b < minor) ⊎ ((b ≡ minor) × (c < patch))))

abbrev pub IsVersion : VersionInfo → ℕ → ℕ → ℕ → Type 0
IsVersion v a b c = (v.major ≡ some a) × (v.minor ≡ some b) × (v.patch ≡ some c)

compare_parts :
    (a b c major minor patch : ℕ)
    → (compare_part (some a) major (compare_part (some b) minor (compare_part (some c) patch same))
        ≡ less)
      ↔ IsBefore a b c major minor patch
unfolding compare_part
compare_parts a b c major minor patch = (λ h. ground arith, λ h. ground arith)

-- A version that was read compares as less exactly if it comes before in the lexicographic order.
pub compare_version-less_iff :
    (v : VersionInfo) (a b c major minor patch : ℕ)
    → IsVersion v a b c
    → (compare_version (version v) major minor patch ≡ less) ↔ IsBefore a b c major minor patch
unfolding compare_version
compare_version-less_iff v a b c major minor patch (ha, hb, hc) =
    rw (ha, hb, hc) (compare_parts a b c major minor patch)
