-- ===== src/Path.antt =====
-- js/src/serializePath.js: derivation paths as text and as bytes, and the check of crypto options.
pub mod Items
pub mod Layout
pub mod Print
pub mod Failures
pub mod Negative
pub mod Options
use app_flow.Prelude.{
  ℕ, zero, suc, ◌+◌, ◌-◌, ◌*◌, ◌%◌, ◌^◌, Bool, true, false, ◌||◌, not, List, [], ◌∷◌, ◌++◌, leb,
  ◌==◌, if◌then◌else◌, Text, Bytes, codes, length, drop, replicate, Result, ok, err, ◌>>=◌,
}
use app_flow.Prelude.Digits.{format}
use app_flow.Js.Number.{JsNumber, is_nan, ge, is_negative, is_integer, add_whole}
use app_flow.Js.ToNumber.{to_number}
use app_flow.Js.Strings.{split, starts_with, ends_with, drop_last}
use app_flow.Js.Buffer.{RangeError, write_uint_le, read_uint32_le}

abbrev pub hardened : ℕ
hardened = 0x8000_0000

-- The apostrophe, U+0027.
abbrev pub prime : ℕ
prime = 0x27

-- The `path` argument: a string, or a value of another type.
pub data PathArg : Type 0 where
  text : Text → PathArg
  not_text : PathArg

-- What is thrown. `not_a_number` shows the text that `Number` did not read.
pub data PathError : Type 0 where
  not_a_string no_m wrong_count too_large : PathError
  not_a_number : Text → PathError
  range : RangeError → PathError

-- A `RangeError` of the buffer is not caught.
abbrev pub lift : Result RangeError Bytes → Result PathError Bytes
lift (ok b) = ok b
lift (err e) = err (range e)

-- One round of the loop up to `buf.writeUInt32LE`.
unfoldable pub child_value : Text → Result PathError JsNumber
child_value child =
    let is_hardened = ends_with prime child in
    let digits = if is_hardened then drop_last child else child in
    let number = to_number digits in
    if is_nan number
    then err (not_a_number digits)
    else if ge number hardened
    then err too_large
    else ok (add_whole (if is_hardened then hardened else 0) number)

-- The loop over `pathArray`, from index `i` on.
unfoldable pub write_children : List Text → ℕ → Bytes → Result PathError Bytes
write_children [] i buf = ok buf
write_children (child ∷ rest) i buf = do
  value ← child_value child
  buf' ← lift (write_uint_le 4 buf value (4 * (i - 1)))
  write_children rest (i + 1) buf'

unfoldable pub serialize_path : PathArg → JsNumber → Result PathError Bytes
serialize_path not_text options = err not_a_string
serialize_path (text path) options =
    let parts = split b'/' path in
    let written =
      lift (write_uint_le 2 (replicate 22 0) options 20) >>= write_children (drop 1 parts) 1 in
    if not (starts_with b'm' path)
    then err no_m
    else if not (length parts == 6)
    then err wrong_count
    else written

-- `v & 0x7FFFFFFF` of a 32-bit value is its remainder modulo 2 ^ 31.
unfoldable pub print_item : ℕ → Text
print_item v = format (v % 2 ^ 31) ++ (if leb 0x800_0000 v then prime ∷ [] else [])

abbrev pub print_items : List ℕ → Text
print_items [] = []
print_items (v ∷ vs) = b'/' ∷ (print_item v ++ print_items vs)

pub data PrintError : Type 0 where
  invalid_bip44_path : PrintError

unfoldable pub print_bip44_path : Bytes → Result PrintError Text
print_bip44_path bytes =
    if not (length bytes == 20)
    then err invalid_bip44_path
    else ok (
        b'm'
        ∷ print_items (
            read_uint32_le bytes 0
            ∷ read_uint32_le bytes 4
            ∷ read_uint32_le bytes 8
            ∷ read_uint32_le bytes 12
            ∷ read_uint32_le bytes 16
            ∷ []))

-- The `cryptoOptions` argument: a number, or a value of another type.
pub data OptionsArg : Type 0 where
  number : JsNumber → OptionsArg
  not_number : OptionsArg

pub data OptionsError : Type 0 where
  bad_options : OptionsError

-- On success nothing is returned; the number is what the caller goes on with.
unfoldable pub validate_crypto_options : OptionsArg → Result OptionsError JsNumber
validate_crypto_options not_number = err bad_options
validate_crypto_options (number x) =
    if not (is_integer x) || is_negative x || ge x 65536 then err bad_options else ok x
