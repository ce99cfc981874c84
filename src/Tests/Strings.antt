-- ===== src/Tests/Strings.antt =====
-- Runs of the UTF-8 decoder: characters of one to four bytes, and bytes that are no character.
use app_flow.Prelude.{◌≡◌, refl, [], ◌∷◌, codes}
use app_flow.Js.Utf8.{first, further, decode_byte, decode, to_string}

ascii_text : to_string (codes "f233dcee88fe0abe") ≡ codes "f233dcee88fe0abe"
unfolding decode decode_byte first
ascii_text = refl

two_bytes : to_string (0xc3 ∷ 0xa9 ∷ []) ≡ 0xe9 ∷ []
unfolding decode decode_byte first further
two_bytes = refl

three_bytes : to_string (0xe2 ∷ 0x82 ∷ 0xac ∷ []) ≡ 0x20ac ∷ []
unfolding decode decode_byte first further
three_bytes = refl

four_bytes : to_string (0xf0 ∷ 0x9f ∷ 0x98 ∷ 0x80 ∷ []) ≡ 0xd83d ∷ 0xde00 ∷ []
unfolding decode decode_byte first further
four_bytes = refl

no_first_byte : to_string (0xff ∷ 0x41 ∷ []) ≡ 0xfffd ∷ 0x41 ∷ []
unfolding decode decode_byte first further
no_first_byte = refl

incomplete : to_string (0xe2 ∷ 0x82 ∷ []) ≡ 0xfffd ∷ []
unfolding decode decode_byte first further
incomplete = refl

broken_off : to_string (0xe2 ∷ 0x82 ∷ 0x41 ∷ []) ≡ 0xfffd ∷ 0x41 ∷ []
unfolding decode decode_byte first further
broken_off = refl

overlong : to_string (0xf0 ∷ 0x80 ∷ 0x80 ∷ []) ≡ 0xfffd ∷ 0xfffd ∷ 0xfffd ∷ []
unfolding decode decode_byte first further
overlong = refl
