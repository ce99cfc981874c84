-- ===== src/Generator/Shown.antt =====
-- What the device shows of a template: its name, and each argument by the type of its value.
use app_flow.Prelude.{
  ℕ, ◌+◌, ◌-◌, ◌≤◌, ◌≡◌, refl, ap, ap₂, sym, ◌∙◌, ◌++◌, Bool, true, false, ◌&&◌, not, [], ◌∷◌, List,
  some, none, arith, ◌==◌, Text, Bytes, codes, text_eq, length, take, drop, get_elem?, Result, ok,
  ◌>>=◌, All, ◌⊎◌, if◌then◌else◌, Bool-cases, inl, inr, >>=-eq-ok, ok-injective,
}
use app_flow.Js.Utf8.{utf8, utf8_ascii}
use app_flow.Device.Parse.{ParsedArgument}
use app_flow.Generator.Encode.{
  Argument, Template, EncodeError, find, or_else, is_member, object_members, legerify,
  tx_arg_transforms, tx_name_transforms, enum_transforms, enum_to_type, uint8_to_buff, is_char,
  label_and_index, type_and_encoding, process_arg,
}
use app_flow.Generator.Parsed.{IsReadable, parsed}

abbrev pub shown_label : Argument → Text
shown_label arg = or_else (find arg.label tx_arg_transforms) arg.label

abbrev pub shown_name : Template → Text
shown_name t = or_else (find t.name tx_name_transforms) t.name

-- The element type of `[T]`, and the type of a value that may be missing, `T?`.
abbrev pub element_type : Text → Text
element_type type = take (length type - 2) (drop 1 type)

abbrev pub present_type : Text → Text
present_type type = take (length type - 1) type

abbrev pub shown_argument : Argument → ℕ → ParsedArgument
shown_argument arg index =
    let label = shown_label arg in
    let is_optional = is_char (get_elem? arg.type (length arg.type - 1)) b'?' in
    if text_eq arg.type (codes "String")
    then parsed 4 none label index (codes "String")
    else if text_eq arg.type (codes "UInt8") && not (enum_to_type arg.label == 1)
    then parsed (enum_to_type arg.label) none label index (codes "UInt8")
    else if is_optional
    then parsed 2 none label index (present_type arg.type)
    else if is_char (get_elem? arg.type 0) b'['
    then parsed 3 (some (0, 3)) label index (element_type arg.type)
    else parsed 1 none label index arg.type

abbrev pub shown_arguments : List Argument → ℕ → List ParsedArgument
shown_arguments [] index = []
shown_arguments (arg ∷ args) index = shown_argument arg index ∷ shown_arguments args (index + 1)

abbrev pub IsReadableArgument : Argument → Type 0
IsReadableArgument arg = IsReadable arg.label × IsReadable arg.type

or_else-find :
    {A : Type 0} (P : A → Type 0) (name : Text) (table : List (Text × A)) (a : A)
    → All (λ entry. P entry.1) table
    → P a
    → P (or_else (find name table) a)
unfolding find
or_else-find P name [] a h p = p
or_else-find P name ((k, v) ∷ table) a (hv, h) p = elim (Bool-cases (text_eq k name)) [
  | inl e ↦ rw e hv
  | inr e ↦ rw e (or_else-find P name table a h p)
]

pub shown_label-IsReadable : (arg : Argument) → IsReadable arg.label → IsReadable (shown_label arg)
shown_label-IsReadable arg h =
    or_else-find IsReadable arg.label tx_arg_transforms arg.label (omega arith) h

pub shown_name-IsReadable : (t : Template) → IsReadable t.name → IsReadable (shown_name t)
shown_name-IsReadable t h = or_else-find IsReadable t.name tx_name_transforms t.name (omega arith) h

pub enum_to_type-cases :
    (label : Text)
    → (enum_to_type label == 1) ≡ false
    → (5 ≤ enum_to_type label) × (enum_to_type label ≤ 7)
enum_to_type-cases label h =
    elim (or_else-find (λ n. (n ≡ 1) ⊎ ((5 ≤ n) × (n ≤ 7))) label enum_transforms 1 table
      (inl refl)) [ inl one ↦ absurd (ground arith) | inr enum ↦ enum ]
  where
    five : (◌≡◌ {A = ℕ} 5 1) ⊎ ((5 ≤ 5) × (5 ≤ 7))
    five = inr (omega arith)

    six : (◌≡◌ {A = ℕ} 6 1) ⊎ ((5 ≤ 6) × (6 ≤ 7))
    six = inr (omega arith)

    seven : (◌≡◌ {A = ℕ} 7 1) ⊎ ((5 ≤ 7) × (7 ≤ 7))
    seven = inr (omega arith)

    table : All (λ entry. (entry.1 ≡ 1) ⊎ ((5 ≤ entry.1) × (entry.1 ≤ 7))) enum_transforms
    table = (five, (six, (six, (five, (seven, tt)))))

pub legerify-utf8 :
    (table : List (Text × Text)) (name : Text) (bytes : Bytes)
    → legerify table name ≡ ok bytes
    → bytes ≡ utf8 (or_else (find name table) name)
unfolding legerify
legerify-utf8 table name bytes h = elim (Bool-cases (is_member name object_members)) [
  | inl inherited ↦ absurd (ground (arith, inherited))
  | inr own ↦ sym (ok-injective (rw own at h))
]

pub uint8_to_buff-eq :
    (n : ℕ) (bytes : Bytes) → uint8_to_buff n ≡ ok bytes → (bytes ≡ n ∷ []) × (n ≤ 255)
uint8_to_buff-eq n bytes h = (ground arith, ground arith)

label_and_index-eq :
    (arg : Argument) (index : ℕ) (shown : Bytes)
    → IsReadable arg.label
    → label_and_index arg index ≡ ok shown
    → (shown ≡ shown_label arg ++ (0 ∷ index ∷ [])) × (index ≤ 255)
unfolding label_and_index
label_and_index-eq arg index shown readable h =
    let (label, e1, h1) =
      >>=-eq-ok (legerify tx_arg_transforms arg.label)
        (λ label. uint8_to_buff index >>= λ i. ok (label ++ (0 ∷ i))) h in
    let (i, e2, h2) = >>=-eq-ok (uint8_to_buff index) (λ i. ok (label ++ (0 ∷ i))) h1 in
    let text =
      legerify-utf8 tx_arg_transforms arg.label label e1
      ∙ utf8_ascii (shown_label arg) (shown_label-IsReadable arg readable).0 in
    let (one, small) = uint8_to_buff-eq index i e2 in
    (sym (ok-injective h2) ∙ ap₂ (λ l j. l ++ (0 ∷ j)) text one, small)

-- A result that is there on both branches.
ok_if :
    {A : Type 0} (b : Bool) (x y : A) (r : Result EncodeError A)
    → r ≡ ok y
    → (if b then ok x else r) ≡ ok (if b then x else y)
ok_if true x y r h = refl
ok_if false x y r h = h

-- What `process_arg` returns if it throws nothing.
abbrev pub encoded : Argument → ℕ → Bytes → Bytes
encoded arg index shown =
    if text_eq arg.type (codes "String")
    then 4 ∷ shown
    else if text_eq arg.type (codes "UInt8") && not (enum_to_type arg.label == 1)
    then enum_to_type arg.label ∷ shown
    else if is_char (get_elem? arg.type (length arg.type - 1)) b'?'
    then 2 ∷ (shown ++ type_and_encoding (present_type arg.type))
    else if is_char (get_elem? arg.type 0) b'['
    then 3 ∷ 0 ∷ 3 ∷ (shown ++ type_and_encoding (element_type arg.type))
    else 1 ∷ (shown ++ type_and_encoding arg.type)

pub process_arg-eq :
    (arg : Argument) (index : ℕ) (bytes : Bytes)
    → IsReadable arg.label
    → process_arg arg index ≡ ok bytes
    → (bytes ≡ encoded arg index (shown_label arg ++ (0 ∷ index ∷ []))) × (index ≤ 255)
unfolding process_arg
process_arg-eq arg index bytes readable h = elim (Bool-cases (is_array && is_optional)) [
  | inl both ↦ absurd (ground (arith, both, h))
  | inr other ↦
      let (shown, e, last) = >>=-eq-ok (label_and_index arg index) choose (rw other at h) in
      let made : choose shown ≡ ok (encoded arg index shown) =
        ok_if is_string _ _ _
          (ok_if is_enum _ _ _ (ok_if is_optional _ _ _ (ok_if is_array _ _ _ refl))) in
      let (same, small) = label_and_index-eq arg index shown readable e in
      (ok-injective (sym last ∙ made) ∙ ap (encoded arg index) same, small)
]
  where
    is_array : Bool
    is_array = is_char (get_elem? arg.type 0) b'['

    is_optional : Bool
    is_optional = is_char (get_elem? arg.type (length arg.type - 1)) b'?'

    is_string : Bool
    is_string = text_eq arg.type (codes "String")

    is_enum : Bool
    is_enum = text_eq arg.type (codes "UInt8") && not (enum_to_type arg.label == 1)

    choose : Bytes → Result EncodeError Bytes
    choose shown =
        if text_eq arg.type (codes "String")
        then ok (4 ∷ shown)
        else if text_eq arg.type (codes "UInt8") && not (enum_to_type arg.label == 1)
        then ok (enum_to_type arg.label ∷ shown)
        else if is_char (get_elem? arg.type (length arg.type - 1)) b'?'
        then ok (2 ∷ (shown ++ type_and_encoding (present_type arg.type)))
        else if is_char (get_elem? arg.type 0) b'['
        then ok (3 ∷ 0 ∷ 3 ∷ (shown ++ type_and_encoding (element_type arg.type)))
        else ok (1 ∷ (shown ++ type_and_encoding arg.type))
