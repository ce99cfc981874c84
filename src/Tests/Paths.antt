-- ===== src/Tests/Paths.antt =====
-- Paths: runs with the values of js/test/test.js, and the theorems of Path at concrete inputs.
use app_flow.Prelude.{
  ℕ, ◌-◌, ◌^◌, ◌<◌, ◌≡◌, ◌↔◌, refl, true, List, [], ◌∷◌, ◌++◌, arith, Text, Bytes, codes, ok, err,
  length, map,
}
use app_flow.Prelude.Digits.{format}
use app_flow.Js.Number
use app_flow.Js.Number.{JsNumber, nan, infinite, finite, of_ℕ, unit}
use app_flow.Js.ToNumber.{to_number}
use app_flow.Js.Strings
use app_flow.Js.Buffer.{le_bytes, write_uint_le, truncated, out_of_range}
use app_flow.Path.{
  text, child_value, write_children, serialize_path, print_item, print_bip44_path, number, prime,
  not_a_number, too_large, wrong_count, no_m, range, hardened,
}
use app_flow.Path.Layout.{path_text, path_bytes, serialize_path-path_text}
use app_flow.Path.Print.{
  shown_item, print_words, reread, word_bytes, child_value-print_item,
  serialize_path-print_bip44_path, print_bip44_path-serialize_path,
}
use app_flow.Tests.Samples.{hard, soft, options, wallet, wallet_written, accepted_options}
use app_flow.Path.Failures.{IsAccepted, IsWritable, serialize_path_iff}
use app_flow.Path.Negative.{child_value-negative_hardened}
use app_flow.Path.Options.{IsWholeNumber, IsStoredAs, validate_crypto_options_sound}

-- The numbers that `Number` reads.
reads :
    (to_number (codes " 12 ") ≡ of_ℕ 12)
    × (to_number (codes "0x1F") ≡ of_ℕ 31)
    × (to_number (codes "1.5e1") ≡ of_ℕ 15)
    × (to_number [] ≡ of_ℕ 0)
    × (to_number (codes "-Infinity") ≡ infinite true)
    × (to_number (codes "12a") ≡ nan)
    × (to_number (codes "9007199254740993") ≡ of_ℕ 9007199254740992)
unfolding to_number Number.to_double Number.round_units Number.last_place Number.nearest
    Number.bit_length Number.bits unit
reads = (refl, refl, refl, refl, refl, refl, refl)

abbrev test_path : Text
test_path = codes "m/44'/539'/513'/0/1"

test_bytes :
    serialize_path (text test_path) (of_ℕ options)
    ≡ ok (
        0x2c ∷ 0 ∷ 0 ∷ 0x80 ∷ 0x1b ∷ 2 ∷ 0 ∷ 0x80 ∷ 1 ∷ 2 ∷ 0 ∷ 0x80 ∷ 0 ∷ 0 ∷ 0 ∷ 0 ∷ 1 ∷ 0 ∷ 0 ∷ 0
        ∷ 1 ∷ 3 ∷ [])
unfolding serialize_path write_children child_value to_number Number.to_double Number.round_units
    Number.last_place Number.nearest Number.bit_length Number.bits unit Number.is_nan Number.ge
    Number.gt Number.is_negative Number.add_whole Strings.split Strings.starts_with
    Strings.ends_with Strings.drop_last write_uint_le truncated
test_bytes = refl

refusals :
    (serialize_path (text (codes "x/1/2/3/4/5")) (of_ℕ 0) ≡ err no_m)
    × (serialize_path (text (codes "m/1/2")) (of_ℕ 0) ≡ err wrong_count)
    × (serialize_path (text (codes "m/1/2/x/4/5")) (of_ℕ 0) ≡ err (not_a_number (codes "x")))
    × (serialize_path (text (codes "m/1/2/2147483648/4/5")) (of_ℕ 0) ≡ err too_large)
    × (serialize_path (text (codes "m/1/2/-3/4/5")) (of_ℕ 0) ≡ err (range out_of_range))
unfolding serialize_path write_children child_value to_number Number.to_double Number.round_units
    Number.last_place Number.nearest Number.bit_length Number.bits unit Number.is_nan Number.ge
    Number.gt Number.is_negative Number.add_whole Strings.split Strings.starts_with
    Strings.ends_with Strings.drop_last write_uint_le truncated
refusals = (refl, refl, refl, refl, refl)

serialize_path-path_text_example :
    serialize_path
      (text (path_text (hard 44 ∷ hard 539 ∷ hard 513 ∷ soft 0 ∷ soft 1 ∷ [])))
      (of_ℕ options)
    ≡ ok (path_bytes (hard 44 ∷ hard 539 ∷ hard 513 ∷ soft 0 ∷ soft 1 ∷ []) ++ le_bytes 2 options)
serialize_path-path_text_example =
    serialize_path-path_text (hard 44) (hard 539) (hard 513) (soft 0) (soft 1) options (omega arith)
      (omega arith)

child_value-print_item_example : child_value (print_item 0x1000_0000) ≡ ok (of_ℕ 0x9000_0000)
child_value-print_item_example = child_value-print_item 0x1000_0000 (omega arith)

abbrev words : List ℕ
words = 0x8000_002c ∷ 0x8000_021b ∷ 0x1000_0000 ∷ 0 ∷ 1 ∷ []

abbrev printed : Text
printed = path_text (map shown_item words)

serialize_path-print_bip44_path_example :
    serialize_path (text printed) (of_ℕ options)
    ≡ ok (word_bytes (map reread words) ++ le_bytes 2 options)
serialize_path-print_bip44_path_example =
    serialize_path-print_bip44_path 0x8000_002c 0x8000_021b 0x1000_0000 0 1 options printed
      (omega arith) (omega arith)
      (print_words 0x8000_002c 0x8000_021b 0x1000_0000 0 1 (omega arith))

print_bip44_path-serialize_path_example :
    print_bip44_path (path_bytes wallet) ≡ ok (path_text wallet)
print_bip44_path-serialize_path_example =
    print_bip44_path-serialize_path (hard 44) (hard 539) (hard 513) (soft 0) (soft 1) options
      (path_bytes wallet ++ le_bytes 2 options) (omega arith) (omega arith) wallet_written

serialize_path_iff_example :
    ((buf : Bytes) × (serialize_path (text (path_text wallet)) (of_ℕ options) ≡ ok buf)
      × (length buf ≡ 22))
    ↔ IsAccepted (path_text wallet) (of_ℕ options)
serialize_path_iff_example = serialize_path_iff (path_text wallet) (of_ℕ options)

child_value-negative_hardened_example :
    IsWritable (b'-' ∷ (format 5 ++ prime ∷ []))
    × (child_value (b'-' ∷ (format 5 ++ prime ∷ [])) ≡ ok (of_ℕ (hardened - 5)))
child_value-negative_hardened_example = child_value-negative_hardened 5 (omega arith)

validate_crypto_options_sound_example :
    (n : ℕ) × (number (of_ℕ options) ≡ number (of_ℕ options))
    × (n < 2 ^ 16)
    × IsWholeNumber (of_ℕ options) n
    × IsStoredAs (of_ℕ options) n
validate_crypto_options_sound_example =
    validate_crypto_options_sound (number (of_ℕ options)) (of_ℕ options) accepted_options
