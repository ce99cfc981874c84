-- ===== src/Device/Parse.antt =====
-- src/tx_metadata.c, `parseTxMetadata`: the metadata in store as a name and arguments. What is read is
-- the rest of the buffer, from `parsed` on.
pub mod ScriptHash
pub mod Bounds
pub mod Script
use app_flow.Prelude.{
  ℕ, zero, suc, ◌+◌, ◌*◌, ◌%◌, Bool, true, false, ◌&&◌, ◌||◌, not, Option, none, some, List, [],
  ◌∷◌, ltb, leb, ◌==◌, if◌then◌else◌, Bytes, codes, length, is_empty, drop, get_or, Result, ok, err,
  ◌>>=◌,
}
use app_flow.Device.Stored.{Stored, hash_size, is_open}

-- The codes of `parser_error_t` that are returned, but for PARSER_OK.
pub data ParseError : Type 0 where
  metadata_error too_many_hashes too_many_arguments unexpected_script unexpected_error : ParseError

-- MAX_METADATA_NUMBER_OF_HASHES
abbrev pub max_number_of_hashes : ℕ
max_number_of_hashes = 10

-- MAX_METADATA_STRING_LENGTH
abbrev pub max_string_length : ℕ
max_string_length = 100

-- PARSER_MAX_ARGCOUNT
abbrev pub max_argcount : ℕ
max_argcount = 9

-- MAX_METADATA_MAX_ARRAY_ITEMS
abbrev pub max_array_items : ℕ
max_array_items = 20

-- Of `argument_type_e`, whose values are 1 to 7: ARGUMENT_TYPE_ARRAY, _STRING and _NODE_ROLE.
abbrev pub argument_type_array : ℕ
argument_type_array = 3

abbrev pub argument_type_string : ℕ
argument_type_string = 4

abbrev pub argument_type_node_role : ℕ
argument_type_node_role = 7

-- JSMN_STRING
abbrev pub kind_string : ℕ
kind_string = 3

-- `parsed_tx_metadata_argument_t`; the bounds are there for an array only. A string is its bytes, less
-- the 0 behind them.
pub record ParsedArgument : Type 0 where
  pub argument_type : ℕ
  pub bounds : Option (ℕ × ℕ)
  pub display_key : Bytes
  pub argument_index : ℕ
  pub json_expected_type : Bytes
  pub json_expected_kind : ℕ

-- `parsed_tx_metadata_t`
pub record ParsedMetadata : Type 0 where
  pub tx_name : Bytes
  pub arguments : List ParsedArgument

-- The loop over the bytes of one hash; `index` is 1 + i * 32 + j before it is cut to a byte.
unfoldable pub hash_matches : Bytes → ℕ → ℕ → Bytes → Result ParseError Bool
hash_matches [] index number_of_hashes metadata = ok true
hash_matches (b ∷ hash) index number_of_hashes metadata =
    let rest = hash_matches hash (index + 1) number_of_hashes metadata in
    if ltb max_number_of_hashes number_of_hashes || leb (length metadata) (index % 256)
    then err metadata_error
    else if get_or metadata (index % 256) 0 == b
    then rest
    else ok false

-- The loop over the hashes, with the rounds that are left.
unfoldable pub find_script : ℕ → ℕ → Bytes → ℕ → Bytes → Result ParseError (Unit {0})
find_script zero i script_hash number_of_hashes metadata = err unexpected_script
find_script (suc rounds) i script_hash number_of_hashes metadata =
    let rest = find_script rounds (i + 1) script_hash number_of_hashes metadata in
    hash_matches script_hash (1 + i * hash_size) number_of_hashes metadata >>= λ matches.
    if matches then ok tt else rest

-- `_validateScriptHash`
unfoldable pub validate_script_hash : Bytes → Bytes → Result ParseError (Unit {0})
validate_script_hash script_hash [] = err metadata_error
validate_script_hash script_hash (number_of_hashes ∷ hashes) =
    find_script number_of_hashes 0 script_hash number_of_hashes (number_of_hashes ∷ hashes)

-- READ_CHAR
unfoldable pub read_char : Bytes → Result ParseError (ℕ × Bytes)
read_char [] = err metadata_error
read_char (b ∷ rest) = ok (b, rest)

-- The loop of READ_STRING, which makes one round more than a string may have bytes.
unfoldable pub read_rounds : ℕ → Bytes → Result ParseError (Bytes × Bytes)
read_rounds zero rest = err metadata_error
read_rounds (suc rounds) [] = err metadata_error
read_rounds (suc rounds) (b ∷ rest) =
    let more = read_rounds rounds rest in
    if b == 0 then ok ([], rest) else more >>= λ (string, after). ok (b ∷ string, after)

abbrev pub read_string : Bytes → Result ParseError (Bytes × Bytes)
read_string rest = read_rounds (max_string_length + 1) rest

unfoldable pub is_argument_type : ℕ → Bool
is_argument_type type = not (type == 0) && leb type argument_type_node_role

unfoldable pub read_bounds : ℕ → Bytes → Result ParseError (Option (ℕ × ℕ) × Bytes)
read_bounds type rest = if not (type == argument_type_array) then ok (none, rest) else do
  (low, rest) ← read_char rest
  (high, rest) ← read_char rest
  if ltb high low || ltb max_array_items high
      then err metadata_error
      else ok (some (low, high), rest)

-- The switch: the expected JSON type and kind.
unfoldable pub read_expected : ℕ → Bytes → Result ParseError (Bytes × ℕ × Bytes)
read_expected type rest =
    if not (type == 0) && leb type argument_type_array
    then (do
      (json_type, rest) ← read_string rest
      (kind, rest) ← read_char rest
      ok (json_type, kind, rest))
    else if type == argument_type_string
    then ok (codes "String", kind_string, rest)
    else if leb type argument_type_node_role
    then ok (codes "UInt8", kind_string, rest)
    else err unexpected_error

-- One round of the loop over the arguments.
unfoldable pub parse_argument : Bytes → Result ParseError (ParsedArgument × Bytes)
parse_argument rest = do
  (type, rest) ← read_char rest
  if not (is_argument_type type) then err metadata_error else do
    (bounds, rest) ← read_bounds type rest
    (key, rest) ← read_string rest
    (index, rest) ← read_char rest
    (json_type, kind, rest) ← read_expected type rest
    ok (
      record {
        argument_type = type;
        bounds = bounds;
        display_key = key;
        argument_index = index;
        json_expected_type = json_type;
        json_expected_kind = kind;
      },
      rest,
    )

-- The loop, with the rounds that are left.
unfoldable pub parse_arguments : ℕ → Bytes → Result ParseError (List ParsedArgument × Bytes)
parse_arguments zero rest = ok ([], rest)
parse_arguments (suc rounds) rest = do
  (argument, rest) ← parse_argument rest
  (arguments, rest) ← parse_arguments rounds rest
  ok (argument ∷ arguments, rest)

-- From the name on.
unfoldable pub parse_body : Bytes → Result ParseError ParsedMetadata
parse_body rest = do
  (name, rest) ← read_string rest
  (arg_count, rest) ← read_char rest
  if ltb max_argcount arg_count then err too_many_arguments else do
    (arguments, rest) ← parse_arguments arg_count rest
    if not (is_empty rest)
        then err metadata_error
        else ok (record { tx_name = name; arguments = arguments })

-- READ_SKIP may pass the end of the buffer; the string that is read next fails then.
unfoldable pub parse_tx_metadata_internal : Bytes → Bytes → Result ParseError ParsedMetadata
parse_tx_metadata_internal script_hash metadata = do
  (number_of_hashes, rest) ← read_char metadata
  if ltb max_number_of_hashes number_of_hashes
      then err too_many_hashes
      else validate_script_hash script_hash metadata >>= λ _.
          parse_body (drop (number_of_hashes * hash_size) rest)

unfoldable pub parse_tx_metadata : Bytes → Stored → Result ParseError ParsedMetadata
parse_tx_metadata script_hash s =
    if is_open s then parse_tx_metadata_internal script_hash s.metadata else err metadata_error
