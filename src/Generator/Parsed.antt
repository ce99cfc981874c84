-- ===== src/Generator/Parsed.antt =====
-- The device's parse of what the generator writes: an argument.
use app_flow.Prelude.{
  ℕ, zero, suc, ◌≤◌, ◌<◌, ◌≡◌, refl, ◌++◌, false, [], ◌∷◌, Option, some, none, arith, ◌==◌, Text,
  Bytes, codes, length, ok, All,
}
use app_flow.Js.Utf8.{IsAscii}
use app_flow.Device.Parse.{
  ParsedArgument, read_char, read_rounds, read_string, read_bounds, read_expected, is_argument_type,
  parse_argument,
}

-- A text that the device can read back: ASCII, with no zero in it, of at most 100 characters.
abbrev pub IsReadable : Text → Type 0
IsReadable s = All IsAscii s × (length s ≤ 100)

read_rounds-append :
    (n : ℕ) (s rest : Bytes)
    → All IsAscii s
    → length s < n
    → read_rounds n (s ++ (0 ∷ rest)) ≡ ok (s, rest)
unfolding read_rounds
read_rounds-append zero s rest h small = absurd (omega arith)
read_rounds-append (suc n) [] rest h small = refl
read_rounds-append (suc n) (c ∷ s) rest (hc, hs) small =
    let e : (c == 0) ≡ false = ground arith in
    rw (e, read_rounds-append n s rest hs (omega arith)) refl

pub read_string-append :
    (s rest : Bytes) → IsReadable s → read_string (s ++ (0 ∷ rest)) ≡ ok (s, rest)
read_string-append s rest (h, small) = read_rounds-append 101 s rest h (omega arith)

abbrev pub parsed : ℕ → Option (ℕ × ℕ) → Text → ℕ → Text → ParsedArgument
parsed type bounds label index json_type = record {
  argument_type = type;
  bounds = bounds;
  display_key = label;
  argument_index = index;
  json_expected_type = json_type;
  json_expected_kind = 3;
}

module _ (label : Text) (readable : IsReadable label) (index : ℕ) where
  pub parse_argument_string :
      (rest : Bytes)
      → parse_argument (4 ∷ (label ++ (0 ∷ index ∷ rest)))
        ≡ ok (parsed 4 none label index (codes "String"), rest)
  unfolding parse_argument read_char read_expected read_bounds is_argument_type
  parse_argument_string rest = rw (read_string-append label (index ∷ rest) readable) refl

  pub parse_argument_enum :
      (type : ℕ) (rest : Bytes)
      → 5 ≤ type
      → type ≤ 7
      → parse_argument (type ∷ (label ++ (0 ∷ index ∷ rest)))
        ≡ ok (parsed type none label index (codes "UInt8"), rest)
  unfolding parse_argument read_char read_expected read_bounds is_argument_type
  parse_argument_enum type rest low high =
      ground (arith, read_string-append label (index ∷ rest) readable)

  module _ (json_type : Text) (readable_type : IsReadable json_type) (rest : Bytes) where
    abbrev typed : Bytes
    typed = label ++ (0 ∷ index ∷ (json_type ++ (0 ∷ 3 ∷ rest)))

    pub parse_argument-typed :
        (type : ℕ)
        → 1 ≤ type
        → type ≤ 2
        → parse_argument (type ∷ typed) ≡ ok (parsed type none label index json_type, rest)
    unfolding parse_argument read_char read_expected read_bounds is_argument_type
    parse_argument-typed type low high = ground (
      arith,
      read_string-append label (index ∷ (json_type ++ (0 ∷ 3 ∷ rest))) readable,
      read_string-append json_type (3 ∷ rest) readable_type,
    )

    pub parse_argument_array :
        parse_argument (3 ∷ 0 ∷ 3 ∷ typed) ≡ ok (parsed 3 (some (0, 3)) label index json_type, rest)
    unfolding parse_argument read_char read_expected read_bounds is_argument_type
    parse_argument_array =
        rw
          (
            read_string-append label (index ∷ (json_type ++ (0 ∷ 3 ∷ rest))) readable,
            read_string-append json_type (3 ∷ rest) readable_type,
          )
          refl
