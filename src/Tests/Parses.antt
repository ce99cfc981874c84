-- ===== src/Tests/Parses.antt =====
-- The device's parse of metadata: runs, and its theorems at concrete inputs.
use app_flow.Prelude.{
  ◌≤◌, ◌≡◌, refl, true, none, [], ◌∷◌, arith, codes, length, replicate, ok, err, inl,
}
use app_flow.Js.Hex.{from_hex, hex_value}
use app_flow.Device.Stored.{Stored, merkle_tree_root, is_open}
use app_flow.Device.Parse.{
  ParsedMetadata, metadata_error, unexpected_script, hash_matches, find_script,
  validate_script_hash, read_char, read_rounds, is_argument_type, read_bounds, read_expected,
  parse_argument, parse_arguments, parse_body, parse_tx_metadata_internal, parse_tx_metadata,
}
use app_flow.Device.Parse.Bounds.{IsShowableMetadata, parse_tx_metadata-IsShowableMetadata}
use app_flow.Device.Parse.Script.{Lists, parse_tx_metadata-Lists}
use app_flow.Generator.Parsed.{parsed}
use app_flow.Generator.RoundTrip.{shown_template, parse_tx_metadata-templates_to_metadata}
use app_flow.Tests.Devices.{create_account, first_metadata}
use app_flow.Tests.Generators.{create_template, created}

-- The first leaf behind an open gate.
abbrev pub proved : Stored
proved = record { metadata = from_hex first_metadata; level = 5; hash = merkle_tree_root }

abbrev pub shown : ParsedMetadata
shown = record {
  tx_name = codes "Create Account";
  arguments =
      parsed 4 none (codes "Public Key") 0 (codes "String")
      ∷ parsed 6 none (codes "Signature Alg.") 1 (codes "UInt8")
      ∷ parsed 5 none (codes "Hash Alg.") 2 (codes "UInt8")
      ∷ parsed 1 none (codes "Key Weight") 3 (codes "UFix64")
      ∷ [];
}

pub read_first : parse_tx_metadata (from_hex create_account) proved ≡ ok shown
unfolding parse_tx_metadata parse_tx_metadata_internal validate_script_hash find_script hash_matches
    parse_body parse_arguments parse_argument is_argument_type read_bounds read_expected read_rounds
    read_char from_hex hex_value
read_first = refl

-- Another script is refused under the same metadata.
other_script : parse_tx_metadata merkle_tree_root proved ≡ err unexpected_script
unfolding parse_tx_metadata parse_tx_metadata_internal validate_script_hash find_script hash_matches
    read_char from_hex hex_value
other_script = refl

-- With eight hashes of zeros a store of 255 bytes has the script's hash, but no room for a name.
eight_hashes :
    parse_tx_metadata
      (replicate 32 0)
      (record { metadata = 8 ∷ replicate 254 0; level = 5; hash = merkle_tree_root })
    ≡ err metadata_error
unfolding parse_tx_metadata parse_tx_metadata_internal validate_script_hash find_script hash_matches
    parse_body read_rounds read_char
eight_hashes = refl

small_store : length proved.metadata ≤ 255
unfolding from_hex hex_value
small_store = omega arith

pub hash_size : length (from_hex create_account) ≡ 32
unfolding from_hex hex_value
hash_size = refl

parse_tx_metadata-IsShowableMetadata_example : IsShowableMetadata shown
parse_tx_metadata-IsShowableMetadata_example =
    parse_tx_metadata-IsShowableMetadata (from_hex create_account) proved shown read_first

parse_tx_metadata-Lists_example :
    (is_open proved ≡ true) × Lists (from_hex first_metadata) (from_hex create_account)
parse_tx_metadata-Lists_example =
    parse_tx_metadata-Lists (from_hex create_account) proved shown hash_size small_store read_first

parse_tx_metadata-templates_to_metadata_example :
    parse_tx_metadata (from_hex create_account) proved ≡ ok (shown_template create_template)
parse_tx_metadata-templates_to_metadata_example =
    parse_tx_metadata-templates_to_metadata create_template create_template
      (from_hex create_account) proved created (omega arith) hash_size hash_size (inl refl) refl
