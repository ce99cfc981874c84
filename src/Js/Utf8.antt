-- ===== src/Js/Utf8.antt =====
-- `Buffer.from(s)` and `buffer.toString()`: UTF-8 of a string of UTF-16 units, and its decoding.
use app_flow.Prelude.{
  ℕ, ◌+◌, ◌-◌, ◌*◌, ◌/◌, ◌%◌, ◌<◌, ◌≡◌, refl, zero, suc, ◌==◌, arith, All, false, Bool, ◌&&◌, ◌||◌,
  [], ◌∷◌, ◌++◌, ltb, leb, if◌then◌else◌, Text, Bytes,
}

is_high : ℕ → Bool
is_high c = leb 0xd800 c && ltb c 0xdc00

is_low : ℕ → Bool
is_low c = leb 0xdc00 c && ltb c 0xe000

-- A unit alone; half of a pair is replaced by U+FFFD.
unit_bytes : ℕ → Bytes
unfolding is_high is_low
unit_bytes c =
    if ltb c 0x80
    then c ∷ []
    else if ltb c 0x800
    then (0xc0 + c / 64) ∷ (0x80 + c % 64) ∷ []
    else if is_high c || is_low c
    then 0xef ∷ 0xbf ∷ 0xbd ∷ []
    else (0xe0 + c / 4096) ∷ (0x80 + c / 64 % 64) ∷ (0x80 + c % 64) ∷ []

pair_bytes : ℕ → ℕ → Bytes
pair_bytes high low =
    let code = 0x1_0000 + (high - 0xd800) * 1024 + (low - 0xdc00) in
    (0xf0 + code / 262144)
    ∷ (0x80 + code / 4096 % 64)
    ∷ (0x80 + code / 64 % 64)
    ∷ (0x80 + code % 64)
    ∷ []

unfoldable pub utf8 : Text → Bytes
unfolding unit_bytes pair_bytes is_high is_low
utf8 [] = []
utf8 (c ∷ []) = unit_bytes c
utf8 (c ∷ d ∷ s) =
    let alone = utf8 (d ∷ s) in
    let paired = utf8 s in
    if is_high c && is_low d then pair_bytes c d ++ paired else unit_bytes c ++ alone

abbrev pub IsAscii : ℕ → Type 0
IsAscii c = (0 < c) × (c < 128)

-- A text of ASCII characters is its bytes.
pub utf8_ascii : (s : Text) → All IsAscii s → utf8 s ≡ s
unfolding utf8
utf8_ascii [] h = refl
utf8_ascii (c ∷ []) h = ground arith
utf8_ascii (c ∷ d ∷ s) (hc, hs) =
    let alone : (is_high c && is_low d) ≡ false = ground arith in
    rw alone (let b : unit_bytes c ≡ c ∷ [] = ground arith in rw (b, utf8_ascii (d ∷ s) hs) refl)

-- The decoder between two bytes: how many bytes of a character are missing, the value of those that
-- were read, and the bounds of the next one.
pub record Decoder : Type 0 where
  pub needed : ℕ
  pub code : ℕ
  pub lower : ℕ
  pub upper : ℕ

abbrev pub idle : Decoder
idle = record { needed = 0; code = 0; lower = 0x80; upper = 0xbf }

abbrev replacement : Text
replacement = 0xfffd ∷ []

-- A code point as one unit or a pair.
abbrev units : ℕ → Text
units code =
    if ltb code 0x1_0000
    then code ∷ []
    else (0xd800 + (code - 0x1_0000) / 1024) ∷ (0xdc00 + (code - 0x1_0000) % 1024) ∷ []

-- The first byte of a character. Bounds exclude overlong forms, halves of pairs and what is above
-- U+10FFFF.
unfoldable pub first : ℕ → Decoder × Text
first b =
    if ltb b 0x80
    then (idle, b ∷ [])
    else if ltb b 0xc2
    then (idle, replacement)
    else if ltb b 0xe0
    then (record idle { needed = 1; code = b - 0xc0 }, [])
    else if ltb b 0xf0
    then (
      record {
        needed = 2;
        code = b - 0xe0;
        lower = if b == 0xe0 then 0xa0 else 0x80;
        upper = if b == 0xed then 0x9f else 0xbf;
      },
      [],
    )
    else if ltb b 0xf5
    then (
      record {
        needed = 3;
        code = b - 0xf0;
        lower = if b == 0xf0 then 0x90 else 0x80;
        upper = if b == 0xf4 then 0x8f else 0xbf;
      },
      [],
    )
    else (idle, replacement)

-- A further byte; one that does not fit ends the character, and is read as a first byte.
unfoldable pub further : ℕ → Decoder → ℕ → Decoder × Text
further missing d b =
    let code = d.code * 64 + (b - 0x80) in
    let (after, more) = first b in
    if leb d.lower b && leb b d.upper
    then if missing == 0
      then (idle, units code)
      else (record idle { needed = missing; code = code }, [])
    else (after, replacement ++ more)

unfoldable pub decode_byte : ℕ → Decoder → ℕ → Decoder × Text
decode_byte zero d b = first b
decode_byte (suc missing) d b = further missing d b

-- What is left at the end is an incomplete character.
unfoldable pub decode : Decoder → Bytes → Text
decode d [] = if d.needed == 0 then [] else replacement
decode d (b ∷ bytes) = let read = decode_byte d.needed d b in read.1 ++ decode read.0 bytes

-- `buffer.toString()`
abbrev pub to_string : Bytes → Text
to_string bytes = decode idle bytes
