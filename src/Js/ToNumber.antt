-- ===== src/Js/ToNumber.antt =====
-- `Number(s)` on a string: white space is trimmed, the empty string is 0, and the rest is a decimal
-- literal with sign, fraction and exponent, `Infinity`, or a number in base 16, 8 or 2.
pub mod Digits
use native.Mathlib.Nat.{mul-one}
use mathlib.Core.List.{reverse, reverse-append, reverse-reverse}
use app_flow.Prelude.{
  ℕ, ◌+◌, ◌-◌, ◌*◌, ◌^◌, ◌<◌, ◌≡◌, ◌≢◌, refl, ap, ◌∙◌, Bool, true, false, ◌&&◌, ◌||◌, Option, none,
  some, List, [], ◌∷◌, ◌++◌, append-nil, arith, leb, ◌==◌, if◌then◌else◌, Text, codes, length,
  is_empty, All, All-append, text_eq,
}
use app_flow.Prelude.Digits.{is_digit, IsDigit, value_from}
use app_flow.Js.Number.{JsNumber, nan, infinite, finite, unit, to_double, to_double_whole, of_ℕ}

is_space : ℕ → Bool
is_space c =
    (leb 9 c && leb c 13)
    || c == 32
    || c == 0xa0
    || c == 0x1680
    || (leb 0x2000 c && leb c 0x200a)
    || c == 0x2028
    || c == 0x2029
    || c == 0x202f
    || c == 0x205f
    || c == 0x3000
    || c == 0xfeff

trim_start : Text → Text
trim_start [] = []
trim_start (c ∷ s) = let rest = trim_start s in if is_space c then rest else c ∷ s

trim : Text → Text
trim s = reverse (trim_start (reverse (trim_start s)))

-- The digits in front, and the rest.
span_digits : Text → Text × Text
span_digits [] = ([], [])
span_digits (c ∷ s) =
    let rest = span_digits s in if is_digit c then (c ∷ rest.0, rest.1) else ([], c ∷ s)

-- The value of a digit of a base up to 16; 16 for no digit.
digit_value : ℕ → ℕ
digit_value c =
    if is_digit c
    then c - b'0'
    else if leb b'a' c && leb c b'f'
    then c - b'a' + 10
    else if leb b'A' c && leb c b'F'
    then c - b'A' + 10
    else 16

base_digits : ℕ → Text → ℕ → Option ℕ
base_digits base [] n = some n
base_digits base (c ∷ s) n =
    let rest = base_digits base s (n * base + digit_value c) in
    if leb base (digit_value c) then none else rest

in_base : ℕ → Text → JsNumber
in_base base [] = nan
in_base base (c ∷ s) = elim (base_digits base (c ∷ s) 0) [
  | none ↦ nan
  | some n ↦ to_double false (n * unit) 1
]

-- What stands behind the whole part: the digits of the fraction, and the rest.
fraction : Text → Text × Text
fraction [] = ([], [])
fraction (c ∷ s) = if c == b'.' then span_digits s else ([], c ∷ s)

exponent_digits : Bool → Text → Option (Bool × ℕ)
exponent_digits neg s =
    let parts = span_digits s in
    if is_empty parts.0
    then none
    else if is_empty parts.1
    then some (neg, value_from 0 parts.0)
    else none

exponent_sign : Text → Option (Bool × ℕ)
exponent_sign [] = none
exponent_sign (c ∷ s) =
    if c == b'-'
    then exponent_digits true s
    else if c == b'+'
    then exponent_digits false s
    else exponent_digits false (c ∷ s)

-- The sign and size of the exponent; nothing else may follow.
exponent : Text → Option (Bool × ℕ)
exponent [] = some (false, 0)
exponent (c ∷ s) = if c == b'e' || c == b'E' then exponent_sign s else none

-- m * 10 ^ e / 10 ^ k, with the sign of `e` apart.
scaled : Bool → ℕ → ℕ → Bool × ℕ → JsNumber
scaled neg m k (false, e) = to_double neg (m * 10 ^ e * unit) (10 ^ k)
scaled neg m k (true, e) = to_double neg (m * unit) (10 ^ (k + e))

literal : Bool → Text → Text × Text → JsNumber
literal neg whole (frac, rest) = if is_empty (whole ++ frac) then nan else elim (exponent rest) [
  | none ↦ nan
  | some e ↦ scaled neg (value_from 0 (whole ++ frac)) (length frac) e
]

unsigned : Bool → Text → JsNumber
unsigned neg s =
    if text_eq s (codes "Infinity")
    then infinite neg
    else let parts = span_digits s in literal neg parts.0 (fraction parts.1)

signed : Text → JsNumber
signed [] = of_ℕ 0
signed (c ∷ s) =
    if c == b'-'
    then unsigned true s
    else if c == b'+'
    then unsigned false s
    else unsigned false (c ∷ s)

prefixed : ℕ → Text → Text → JsNumber
prefixed c s whole =
    if c == b'x' || c == b'X'
    then in_base 16 s
    else if c == b'o' || c == b'O'
    then in_base 8 s
    else if c == b'b' || c == b'B'
    then in_base 2 s
    else signed whole

trimmed : Text → JsNumber
trimmed [] = of_ℕ 0
trimmed (c ∷ []) = signed (c ∷ [])
trimmed (c ∷ d ∷ s) = if c == b'0' then prefixed d s (c ∷ d ∷ s) else signed (c ∷ d ∷ s)

unfoldable pub to_number : Text → JsNumber
unfolding trimmed trim trim_start is_space prefixed signed unsigned literal scaled exponent
    exponent_sign exponent_digits fraction in_base base_digits digit_value span_digits
to_number s = trimmed (trim s)
