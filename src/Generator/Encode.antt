-- ===== src/Generator/Encode.antt =====
-- transaction_metadata/tree/index.js, `readManifest`: a template of the manifest as metadata.
use app_flow.Prelude.{
  ℕ, ◌+◌, ◌-◌, Bool, false, ◌&&◌, ◌||◌, not, Option, none, some, List, [], ◌∷◌, ◌++◌, ltb, ◌==◌,
  if◌then◌else◌, Text, Bytes, codes, text_eq, length, take, drop, get_elem?, Result, ok, err, ◌>>=◌,
}
use app_flow.Js.Hex.{from_hex}
use app_flow.Js.Utf8.{utf8}

pub record Argument : Type 0 where
  pub label : Text
  pub type : Text

pub record Template : Type 0 where
  pub hash : Text
  pub name : Text
  pub arguments : List Argument

-- What is thrown. `undefined_name` is the `ReferenceError` of a constant that the file lacks.
pub data EncodeError : Type 0 where
  out_of_range undefined_name too_long inherited_name : EncodeError

-- `uint8_to_buff`
abbrev pub uint8_to_buff : ℕ → Result EncodeError Bytes
uint8_to_buff n = if ltb 255 n then err out_of_range else ok (n ∷ [])

-- `table[name]`
unfoldable pub find {ℓ} : {A : Type ℓ} → Text → List (Text × A) → Option A
find name [] = none
find name ((k, v) ∷ rest) = if text_eq k name then some v else find name rest

abbrev pub or_else {ℓ} : {A : Type ℓ} → Option A → A → A
or_else none a = a
or_else (some b) a = b

abbrev pub tx_name_transforms : List (Text × Text)
tx_name_transforms =
    (codes "Transfer Fungible Token with Address", codes "Transfer Fungible Token with Addr") ∷ []

abbrev pub tx_arg_transforms : List (Text × Text)
tx_arg_transforms =
    (codes "Networking Address", codes "Netw. Address")
    ∷ (codes "Networking Key", codes "Netw. Key")
    ∷ (codes "Public Keys", codes "Pub. Key")
    ∷ (codes "Machine Account Public Key", codes "MA Pub. Key")
    ∷ (codes "Raw Value for Machine Account Hash Algorithm Enum", codes "MA Hash Alg.")
    ∷ (codes "Raw Value for Machine Account Signature Algorithm Enum", codes "MA Sign. Alg.")
    ∷ (codes "Raw Value for Signature Algorithm Enum", codes "Signature Alg.")
    ∷ (codes "Raw Value for Hash Algorithm Enum", codes "Hash Alg.")
    ∷ (codes "FT Contract Address", codes "FT Contract Addr.")
    ∷ (codes "Sender's Collection Path Identifier", codes "Sen. Coll Path Id")
    ∷ (codes "Recipient's Receiver Path Identifier", codes "Rec. Coll Path Id")
    ∷ (codes "NFT Contract Address", codes "NFT Contract Addr")
    ∷ (codes "NFT ID to Transfer", codes "NFT ID to Transf")
    ∷ []

abbrev pub normal : ℕ
normal = 1

abbrev pub optional : ℕ
optional = 2

abbrev pub array : ℕ
array = 3

abbrev pub string_type : ℕ
string_type = 4

abbrev pub jsmn_string : ℕ
jsmn_string = 3

abbrev pub min_array_length : ℕ
min_array_length = 0

abbrev pub max_array_length : ℕ
max_array_length = 3

-- The types of the labels of enumerations: hash algorithm 5, signature algorithm 6, node role 7.
abbrev pub enum_transforms : List (Text × ℕ)
enum_transforms =
    (codes "Raw Value for Machine Account Hash Algorithm Enum", 5)
    ∷ (codes "Raw Value for Machine Account Signature Algorithm Enum", 6)
    ∷ (codes "Raw Value for Signature Algorithm Enum", 6)
    ∷ (codes "Raw Value for Hash Algorithm Enum", 5)
    ∷ (codes "Node Role", 7)
    ∷ []

-- Names that every object has; the code takes the member for the table's entry, and then throws.
abbrev pub object_members : List Text
object_members =
    codes "constructor"
    ∷ codes "toString"
    ∷ codes "valueOf"
    ∷ codes "hasOwnProperty"
    ∷ codes "isPrototypeOf"
    ∷ codes "propertyIsEnumerable"
    ∷ codes "toLocaleString"
    ∷ codes "__proto__"
    ∷ codes "__defineGetter__"
    ∷ codes "__defineSetter__"
    ∷ codes "__lookupGetter__"
    ∷ codes "__lookupSetter__"
    ∷ []

abbrev pub is_member : Text → List Text → Bool
is_member name [] = false
is_member name (k ∷ rest) = text_eq k name || is_member name rest

-- `legerifyTxName` and `legerifyArgLabel`, then `Buffer.from`.
unfoldable pub legerify : List (Text × Text) → Text → Result EncodeError Bytes
legerify table name =
    if is_member name object_members
    then err inherited_name
    else ok (utf8 (or_else (find name table) name))

abbrev pub enum_to_type : Text → ℕ
enum_to_type label = or_else (find label enum_transforms) normal

-- The last character, as `text[text.length-1]`, and whether it is `?`.
abbrev pub is_char : Option ℕ → ℕ → Bool
is_char none c = false
is_char (some d) c = d == c

-- The label, a trailing 0 and the index in which arguments are shown.
unfoldable pub label_and_index : Argument → ℕ → Result EncodeError Bytes
label_and_index arg idx = do
  label ← legerify tx_arg_transforms arg.label
  index ← uint8_to_buff idx
  ok (label ++ (0 ∷ index))

abbrev pub type_and_encoding : Text → Bytes
type_and_encoding type = utf8 type ++ (0 ∷ jsmn_string ∷ [])

-- An array that is optional reaches the constant that the file lacks before anything else can fail.
unfoldable pub process_arg : Argument → ℕ → Result EncodeError Bytes
process_arg arg idx =
    let size = length arg.type in
    let is_array = is_char (get_elem? arg.type 0) b'[' in
    let is_optional = is_char (get_elem? arg.type (size - 1)) b'?' in
    if is_array && is_optional
    then err undefined_name
    else label_and_index arg idx >>= λ shown.
        if text_eq arg.type (codes "String")
        then ok (string_type ∷ shown)
        else if text_eq arg.type (codes "UInt8") && not (enum_to_type arg.label == normal)
        then ok (enum_to_type arg.label ∷ shown)
        else if is_optional
        then ok (optional ∷ (shown ++ type_and_encoding (take (size - 1) arg.type)))
        else if is_array
        then ok (
            array
            ∷ min_array_length
            ∷ max_array_length
            ∷ (shown ++ type_and_encoding (take (size - 2) (drop 1 arg.type))))
        else ok (normal ∷ (shown ++ type_and_encoding arg.type))

unfoldable pub process_args : List Argument → ℕ → Result EncodeError Bytes
process_args [] idx = ok []
process_args (arg ∷ args) idx = do
  first ← process_arg arg idx
  rest ← process_args args (idx + 1)
  ok (first ++ rest)

-- The number of hashes, the two hashes, the name and the arguments.
unfoldable pub templates_to_metadata : Template → Template → Result EncodeError Bytes
templates_to_metadata testnet mainnet = do
  name ← legerify tx_name_transforms mainnet.name
  count ← uint8_to_buff (length mainnet.arguments)
  args ← process_args mainnet.arguments 0
  let result =
      2 ∷ (from_hex testnet.hash ++ (from_hex mainnet.hash ++ (name ++ (0 ∷ (count ++ args)))))
  if ltb 255 (length result) then err too_long else ok result
