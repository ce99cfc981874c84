-- ===== src/Generator/Arguments.antt =====
-- The device reads back what the generator writes for the arguments, in order.
use app_flow.Prelude.{
  ℕ, ◌+◌, ◌-◌, ◌≡◌, refl, ap, sym, ◌∙◌, ◌++◌, Bool, true, false, ◌&&◌, not, [], ◌∷◌, List, some,
  none, arith, ◌==◌, Text, Bytes, codes, text_eq, length, take, drop, get_elem?, ok, ◌>>=◌, All,
  if◌then◌else◌, append_assoc, >>=-eq-ok, ok-injective, length-take, length-drop,
}
use app_flow.Js.Utf8.{IsAscii, utf8_ascii}
use app_flow.Device.Parse.{ParsedArgument, parse_argument, parse_arguments}
use app_flow.Generator.Encode.{
  Argument, process_arg, process_args, is_char, enum_to_type, type_and_encoding,
}
use app_flow.Generator.Levels.{All-take, All-drop}
use app_flow.Generator.Parsed.{
  IsReadable, parsed, parse_argument_string, parse_argument_enum, parse_argument-typed,
  parse_argument_array,
}
use app_flow.Generator.Shown.{
  shown_label, shown_argument, shown_arguments, present_type, element_type, IsReadableArgument,
  shown_label-IsReadable, enum_to_type-cases, encoded, process_arg-eq,
}

pub take-IsReadable : (n : ℕ) (s : Text) → IsReadable s → IsReadable (take n s)
take-IsReadable n s (ascii, short) = (All-take IsAscii n s ascii, omega (arith, length-take n s))

pub drop-IsReadable : (n : ℕ) (s : Text) → IsReadable s → IsReadable (drop n s)
drop-IsReadable n s (ascii, short) = (All-drop IsAscii n s ascii, omega (arith, length-drop n s))

module _ (label : Text) (index : ℕ) (rest : Bytes) where
  label_then : (label ++ (0 ∷ index ∷ [])) ++ rest ≡ label ++ (0 ∷ index ∷ rest)
  label_then = append_assoc label (0 ∷ index ∷ []) rest

  -- A label, an index and a JSON type in front of the rest.
  typed_then :
      (type : Text)
      → All IsAscii type
      → ((label ++ (0 ∷ index ∷ [])) ++ type_and_encoding type) ++ rest
        ≡ label ++ (0 ∷ index ∷ (type ++ (0 ∷ 3 ∷ rest)))
  typed_then type ascii = rw (utf8_ascii type ascii) (simp append_assoc)

-- The device reads the argument off the bytes, and leaves what is behind them.
abbrev Reads : Bytes → ParsedArgument → Type 0
Reads bytes argument = (rest : Bytes) → parse_argument (bytes ++ rest) ≡ ok (argument, rest)

Reads-if :
    (test : Bool) (x y : Bytes) (a b : ParsedArgument)
    → (test ≡ true → Reads x a)
    → (test ≡ false → Reads y b)
    → Reads (if test then x else y) (if test then a else b)
Reads-if true x y a b h k = h refl
Reads-if false x y a b h k = k refl

module _ (arg : Argument) (readable : IsReadableArgument arg) (index : ℕ) where
  abbrev label : Text
  label = shown_label arg

  abbrev written : Bytes
  written = label ++ (0 ∷ index ∷ [])

  shown : IsReadable label
  shown = shown_label-IsReadable arg readable.0

  abbrev typed : Text → Bytes
  typed type = written ++ type_and_encoding type

  plain-Reads : Reads (1 ∷ typed arg.type) (parsed 1 none label index arg.type)
  plain-Reads rest = rw (typed_then label index rest arg.type readable.1.0) (
      parse_argument-typed label shown index arg.type readable.1 rest 1 (omega arith) (omega arith))

  optional-Reads :
      Reads (2 ∷ typed (present_type arg.type)) (parsed 2 none label index (present_type arg.type))
  optional-Reads rest =
      let type = take-IsReadable (length arg.type - 1) arg.type readable.1 in
      rw (typed_then label index rest (present_type arg.type) type.0) (
        parse_argument-typed label shown index (present_type arg.type) type rest 2 (omega arith)
          (omega arith))

  array-Reads :
      Reads
        (3 ∷ 0 ∷ 3 ∷ typed (element_type arg.type))
        (parsed 3 (some (0, 3)) label index (element_type arg.type))
  array-Reads rest =
      let type =
        take-IsReadable (length arg.type - 2) (drop 1 arg.type)
          (drop-IsReadable 1 arg.type readable.1) in
      rw (typed_then label index rest (element_type arg.type) type.0)
        (parse_argument_array label shown index (element_type arg.type) type rest)

  string-Reads : Reads (4 ∷ written) (parsed 4 none label index (codes "String"))
  string-Reads rest =
      rw (label_then label index rest) (parse_argument_string label shown index rest)

  enum-Reads :
      (is_byte : Bool)
      → (is_byte && not (enum_to_type arg.label == 1)) ≡ true
      → Reads
          (enum_to_type arg.label ∷ written)
          (parsed (enum_to_type arg.label) none label index (codes "UInt8"))
  enum-Reads is_byte h rest =
      let (low, high) = enum_to_type-cases arg.label (ground arith) in
      rw (label_then label index rest)
        (parse_argument_enum label shown index (enum_to_type arg.label) rest low high)

  encoded-Reads : Reads (encoded arg index written) (shown_argument arg index)
  encoded-Reads =
      Reads-if (text_eq arg.type (codes "String")) _ _ _ _ (λ _. string-Reads)
        (λ _.
          Reads-if (text_eq arg.type (codes "UInt8") && not (enum_to_type arg.label == 1)) _ _ _ _
            (enum-Reads (text_eq arg.type (codes "UInt8")))
            (λ _.
              Reads-if (is_char (get_elem? arg.type (length arg.type - 1)) b'?') _ _ _ _
                (λ _. optional-Reads)
                (λ _.
                  Reads-if (is_char (get_elem? arg.type 0) b'[') _ _ _ _ (λ _. array-Reads)
                    (λ _. plain-Reads))))

pub parse_arguments-process_args :
    (args : List Argument) (index : ℕ) (bytes rest : Bytes)
    → All IsReadableArgument args
    → process_args args index ≡ ok bytes
    → parse_arguments (length args) (bytes ++ rest) ≡ ok (shown_arguments args index, rest)
unfolding process_args parse_arguments
parse_arguments-process_args [] index bytes rest h e =
    ap (λ (b : Bytes). ok (shown_arguments [] index, b ++ rest)) (sym (ok-injective e))
parse_arguments-process_args (arg ∷ args) index bytes rest (h, hs) e =
    let (first, e1, f1) =
      >>=-eq-ok (process_arg arg index)
        (λ first. process_args args (index + 1) >>= λ more. ok (first ++ more)) e in
    let (more, e2, f2) =
      >>=-eq-ok (process_args args (index + 1)) (λ more. ok (first ++ more)) f1 in
    let behind = parse_arguments-process_args args (index + 1) more rest hs e2 in
    let here = encoded-Reads arg h index (more ++ rest) in
    let same : bytes ++ rest
        ≡ encoded arg index (shown_label arg ++ (0 ∷ index ∷ [])) ++ (more ++ rest) =
      ap (λ b. b ++ rest) (sym (ok-injective f2))
      ∙ append_assoc first more rest
      ∙ ap (λ b. b ++ (more ++ rest)) (process_arg-eq arg index first h.0 e1).0 in
    rw (same, here, behind) refl
