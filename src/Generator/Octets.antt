-- ===== src/Generator/Octets.antt =====
-- The metadata that is made of readable templates consists of bytes.
use app_flow.Prelude.{
  ℕ, ◌+◌, ◌-◌, ◌≡◌, sym, subst, ◌&&◌, not, [], ◌∷◌, List, arith, ◌==◌, Text, Bytes, codes, text_eq,
  length, get_elem?, ok, All, All-append, IsByte, >>=-eq-ok, Bool-cases, inl, inr, if_both,
  ok-injective,
}
use app_flow.Js.Hex.{from_hex, from_hex-All-IsByte}
use app_flow.Js.Utf8.{IsAscii, utf8_ascii}
use app_flow.Generator.Encode.{
  Template, Argument, is_char, enum_to_type, type_and_encoding, process_arg, process_args,
  templates_to_metadata,
}
use app_flow.Generator.Parsed.{IsReadable}
use app_flow.Generator.Shown.{
  shown_label, shown_name, IsReadableArgument, shown_label-IsReadable, shown_name-IsReadable,
  enum_to_type-cases, present_type, element_type, encoded, process_arg-eq,
}
use app_flow.Generator.Arguments.{take-IsReadable, drop-IsReadable}
use app_flow.Generator.RoundTrip.{IsReadableTemplate, metadata-eq}

AllBytes : Bytes → Type 0
AllBytes bs = All IsByte bs

ascii-AllBytes : (s : Text) → All IsAscii s → All IsByte s
ascii-AllBytes [] h = tt
ascii-AllBytes (c ∷ s) (hc, hs) = (omega arith, ascii-AllBytes s hs)

type_and_encoding-AllBytes : (type : Text) → All IsAscii type → All IsByte (type_and_encoding type)
type_and_encoding-AllBytes type h =
    rw (utf8_ascii type h)
      (All-append IsByte type (0 ∷ 3 ∷ []) (ascii-AllBytes type h) (omega arith))

enum-IsByte : (label : Text) → IsByte (enum_to_type label)
enum-IsByte label = elim (Bool-cases (enum_to_type label == 1)) [
  | inl one ↦ ground arith
  | inr enum ↦ omega (arith, enum_to_type-cases label enum)
]

encoded-AllBytes :
    (arg : Argument) (index : ℕ) (shown : Bytes)
    → IsReadable arg.type
    → All IsByte shown
    → All IsByte (encoded arg index shown)
encoded-AllBytes arg index shown h hs =
    let typed = λ (type : Text) (r : IsReadable type).
      All-append IsByte shown (type_and_encoding type) hs (type_and_encoding-AllBytes type r.0) in
    let optional =
      typed (present_type arg.type) (take-IsReadable (length arg.type - 1) arg.type h) in
    let array =
      typed (element_type arg.type)
        (take-IsReadable (length arg.type - 2) _ (drop-IsReadable 1 arg.type h)) in
    if_both (All IsByte) (text_eq arg.type (codes "String")) (omega arith, hs)
      (if_both (All IsByte) (text_eq arg.type (codes "UInt8") && not (enum_to_type arg.label == 1))
        (enum-IsByte arg.label, hs)
        (if_both (All IsByte) (is_char (get_elem? arg.type (length arg.type - 1)) b'?')
          (omega arith, optional)
          (if_both (All IsByte) (is_char (get_elem? arg.type 0) b'[')
            (omega arith, (omega arith, (omega arith, array))) (omega arith, typed arg.type h))))

process_args-AllBytes :
    (args : List Argument) (index : ℕ) (bytes : Bytes)
    → All IsReadableArgument args
    → process_args args index ≡ ok bytes
    → All IsByte bytes
unfolding process_args
process_args-AllBytes [] index bytes h e = subst (All IsByte) (ok-injective e) tt
process_args-AllBytes (arg ∷ args) index bytes (h, hs) e =
    let (first, e1, f1) = >>=-eq-ok (process_arg arg index) _ e in
    let (more, e2, f2) = >>=-eq-ok (process_args args (index + 1)) _ f1 in
    let (same, small) = process_arg-eq arg index first h.0 e1 in
    let label = shown_label-IsReadable arg h.0 in
    let written =
      All-append IsByte (shown_label arg) (0 ∷ index ∷ [])
        (ascii-AllBytes (shown_label arg) label.0) (omega (arith, small)) in
    let here = subst (All IsByte) (sym same) (encoded-AllBytes arg index _ h.1 written) in
    subst (All IsByte) (ok-injective f2)
      (All-append IsByte first more here (process_args-AllBytes args (index + 1) more hs e2))

pub templates_to_metadata-All-IsByte :
    (testnet mainnet : Template) (bytes : Bytes)
    → IsReadableTemplate mainnet
    → templates_to_metadata testnet mainnet ≡ ok bytes
    → All IsByte bytes
templates_to_metadata-All-IsByte testnet mainnet bytes (name, arguments, few) h =
    let (args, e, same) = metadata-eq testnet mainnet bytes name h in
    let counted : All IsByte (0 ∷ length mainnet.arguments ∷ args) =
      (omega arith, (omega arith, process_args-AllBytes mainnet.arguments 0 args arguments e)) in
    let named =
      All-append IsByte (shown_name mainnet) (0 ∷ length mainnet.arguments ∷ args)
        (ascii-AllBytes (shown_name mainnet) (shown_name-IsReadable mainnet name).0) counted in
    let second =
      All-append IsByte (from_hex mainnet.hash) _ (from_hex-All-IsByte mainnet.hash) named in
    let first =
      All-append IsByte (from_hex testnet.hash) _ (from_hex-All-IsByte testnet.hash) second in
    subst (All IsByte) (sym same) (omega arith, first)
