-- ===== src/Js/Hex.antt =====
-- `toString("hex")` and `Buffer.from(s, "hex")`, which stops at the first pair that is no byte.
use app_flow.Prelude.{
  ℕ, ◌+◌, ◌-◌, ◌*◌, ◌/◌, ◌%◌, ◌≤◌, ◌<◌, ◌≡◌, refl, ap, sym, append-nil, ◌∙◌, ◌&&◌, ◌||◌, [], ◌∷◌,
  ◌++◌, ◌==◌, arith, ltb, leb, if◌then◌else◌, Text, Bytes, All, IsByte,
}

unfoldable pub hex_digit : ℕ → ℕ
hex_digit d = if ltb d 10 then b'0' + d else b'a' + (d - 10)

-- The value of a hexadecimal digit of either case, 16 for another character.
unfoldable pub hex_value : ℕ → ℕ
hex_value c =
    if leb b'0' c && leb c b'9'
    then c - b'0'
    else if leb b'a' c && leb c b'f'
    then c - b'a' + 10
    else if leb b'A' c && leb c b'F'
    then c - b'A' + 10
    else 16

unfoldable pub to_hex : Bytes → Text
to_hex [] = []
to_hex (b ∷ bs) = hex_digit (b / 16) ∷ hex_digit (b % 16) ∷ to_hex bs

unfoldable pub from_hex : Text → Bytes
from_hex [] = []
from_hex (a ∷ []) = []
from_hex (a ∷ b ∷ s) =
    let rest = from_hex s in
    if hex_value a == 16 || hex_value b == 16 then [] else (hex_value a * 16 + hex_value b) ∷ rest

hex_value-hex_digit : (d : ℕ) → d < 16 → hex_value (hex_digit d) ≡ d
unfolding hex_value hex_digit
hex_value-hex_digit d h = ground arith

from_hex_pair :
    (b : ℕ) (s : Text)
    → b < 256
    → from_hex (hex_digit (b / 16) ∷ hex_digit (b % 16) ∷ s) ≡ b ∷ from_hex s
unfolding from_hex
from_hex_pair b s h =
    ground (
      arith,
      hex_value-hex_digit (b / 16) (omega arith),
      hex_value-hex_digit (b % 16) (omega arith),
    )

-- Text in front that is the print of bytes is read as those bytes.
pub from_hex-to_hex :
    (bs : Bytes) (rest : Text) → All IsByte bs → from_hex (to_hex bs ++ rest) ≡ bs ++ from_hex rest
from_hex-to_hex [] rest _ = unfold to_hex in refl
from_hex-to_hex (b ∷ bs) rest (h, hs) =
    unfold_pair
    ∙ from_hex_pair b (to_hex bs ++ rest) h
    ∙ ap (λ t. b ∷ t) (from_hex-to_hex bs rest hs)
  where
    unfold_pair :
        from_hex (to_hex (b ∷ bs) ++ rest)
        ≡ from_hex (hex_digit (b / 16) ∷ hex_digit (b % 16) ∷ (to_hex bs ++ rest))
    unfold_pair = unfold to_hex in refl

pub from_hex-to_hex_whole : (bs : Bytes) → All IsByte bs → from_hex (to_hex bs) ≡ bs
from_hex-to_hex_whole bs h =
    ap from_hex (sym (append-nil (to_hex bs)))
    ∙ from_hex-to_hex bs [] h
    ∙ unfold from_hex in append-nil bs

hex_value-le : (c : ℕ) → hex_value c ≤ 16
unfolding hex_value
hex_value-le c = ground arith

pub from_hex-All-IsByte : (s : Text) → All IsByte (from_hex s)
unfolding from_hex
from_hex-All-IsByte [] = tt
from_hex-All-IsByte (a ∷ []) = tt
from_hex-All-IsByte (a ∷ b ∷ s) =
    ground (arith, hex_value-le a, hex_value-le b, from_hex-All-IsByte s)

pub to_hex-append : (cs bs : Bytes) → to_hex (cs ++ bs) ≡ to_hex cs ++ to_hex bs
unfolding to_hex
to_hex-append [] bs = refl
to_hex-append (c ∷ cs) bs =
    ap (λ t. hex_digit (c / 16) ∷ hex_digit (c % 16) ∷ t) (to_hex-append cs bs)
