-- ===== src/Generator/RoundTrip.antt =====
-- The device parses the metadata that the generator makes of a template, and shows the template.
use app_flow.Prelude.{
  ◌≤◌, ◌≡◌, refl, ap, sym, ◌∙◌, ◌++◌, true, [], ◌∷◌, arith, Bytes, length, take, drop, ok, All, ◌⊎◌,
  inl, inr, >>=-eq-ok, append-nil, take-append_eq, drop-append_eq, length-append, le→ltb_false,
  append_assoc,
}
use app_flow.Js.Hex.{from_hex}
use app_flow.Js.Utf8.{utf8_ascii}
use app_flow.Device.Stored.{Stored, is_open}
use app_flow.Device.Parse.{
  ParsedMetadata, read_char, parse_body, validate_script_hash, find_script,
  parse_tx_metadata_internal, parse_tx_metadata,
}
use app_flow.Device.Parse.ScriptHash.{hash_matches_at, hash_matches-ok}
use app_flow.Generator.Encode.{
  Template, legerify, tx_name_transforms, uint8_to_buff, process_args, templates_to_metadata,
}
use app_flow.Generator.Keys.{limited}
use app_flow.Generator.Parsed.{IsReadable, read_string-append}
use app_flow.Generator.Shown.{
  shown_name, shown_arguments, IsReadableArgument, shown_name-IsReadable, legerify-utf8,
  uint8_to_buff-eq,
}
use app_flow.Generator.Arguments.{parse_arguments-process_args}

-- Metadata with two hashes of 32 bytes.
module _ (a b rest : Bytes) (size_a : length a ≡ 32) (size_b : length b ≡ 32) where
  abbrev two_hashes : Bytes
  two_hashes = 2 ∷ (a ++ (b ++ rest))

  long_enough : 65 ≤ length two_hashes
  long_enough = omega (arith, length-append a (b ++ rest), length-append b rest)

  second : drop 33 two_hashes ≡ b ++ rest
  second = drop-append_eq 32 a (b ++ rest) size_a

  behind : drop 64 (a ++ (b ++ rest)) ≡ rest
  behind =
      ap (λ t. drop 64 t) (sym (append_assoc a b rest))
      ∙ drop-append_eq 64 (a ++ b) rest (omega (arith, length-append a b))

  validate-first : validate_script_hash a two_hashes ≡ ok tt
  unfolding validate_script_hash find_script
  validate-first =
      let found =
        hash_matches_at a 1 2 two_hashes (omega arith) (omega arith)
          (ap (λ n. take n (a ++ (b ++ rest))) size_a ∙ take-append_eq 32 a (b ++ rest) size_a) in
      rw found refl

  validate-second : validate_script_hash b two_hashes ≡ ok tt
  unfolding validate_script_hash find_script
  validate-second =
      let (matches, e) =
        hash_matches-ok b 1 2 two_hashes (omega arith) (omega (arith, long_enough)) (omega arith) in
      let found = hash_matches_at b 33 2 two_hashes (omega arith) (omega arith) (
        ap (take (length b)) second
        ∙ ap (λ n. take n (b ++ rest)) size_b
        ∙ take-append_eq 32 b rest size_b) in
      ground (arith, e, found)

  pub parse_internal_two :
      (script_hash : Bytes)
      → (script_hash ≡ a) ⊎ (script_hash ≡ b)
      → parse_tx_metadata_internal script_hash two_hashes ≡ parse_body rest
  unfolding parse_tx_metadata_internal read_char
  parse_internal_two script_hash (inl e) = rw (e, validate-first, behind) refl
  parse_internal_two script_hash (inr e) = rw (e, validate-second, behind) refl

abbrev pub shown_template : Template → ParsedMetadata
shown_template t = record { tx_name = shown_name t; arguments = shown_arguments t.arguments 0 }

abbrev pub IsReadableTemplate : Template → Type 0
IsReadableTemplate t =
    IsReadable t.name × All IsReadableArgument t.arguments × (length t.arguments ≤ 9)

parse_body-template :
    (t : Template) (args : Bytes)
    → IsReadableTemplate t
    → process_args t.arguments 0 ≡ ok args
    → parse_body (shown_name t ++ (0 ∷ length t.arguments ∷ args)) ≡ ok (shown_template t)
unfolding parse_body read_char
parse_body-template t args (name, arguments, few) e =
    let read = parse_arguments-process_args t.arguments 0 args [] arguments e in
    rw
      (
        read_string-append (shown_name t) (length t.arguments ∷ args)
            (shown_name-IsReadable t name),
        le→ltb_false 9 (length t.arguments) few,
        sym (append-nil args),
        read,
      )
      refl

-- The parts of metadata that was made.
pub metadata-eq :
    (testnet mainnet : Template) (bytes : Bytes)
    → IsReadable mainnet.name
    → templates_to_metadata testnet mainnet ≡ ok bytes
    → (args : Bytes) × (process_args mainnet.arguments 0 ≡ ok args)
      × (bytes
          ≡ 2
            ∷ (from_hex testnet.hash
                ++ (from_hex mainnet.hash
                    ++ (shown_name mainnet ++ (0 ∷ length mainnet.arguments ∷ args)))))
unfolding templates_to_metadata
metadata-eq testnet mainnet bytes readable h =
    let (name, e1, h1) = >>=-eq-ok (legerify tx_name_transforms mainnet.name) _ h in
    let (count, e2, h2) = >>=-eq-ok (uint8_to_buff (length mainnet.arguments)) _ h1 in
    let (args, e3, h3) = >>=-eq-ok (process_args mainnet.arguments 0) _ h2 in
    let (same, _) = limited _ bytes h3 in
    let text =
      legerify-utf8 tx_name_transforms mainnet.name name e1
      ∙ utf8_ascii (shown_name mainnet) (shown_name-IsReadable mainnet readable).0 in
    (
      args,
      e3,
      same
          ∙ ap
              (λ n.
                2
                ∷ (from_hex testnet.hash
                    ++ (from_hex mainnet.hash ++ (n ++ (0 ∷ (count ++ args))))))
              text
          ∙ ap
              (λ c.
                2
                ∷ (from_hex testnet.hash
                    ++ (from_hex mainnet.hash ++ (shown_name mainnet ++ (0 ∷ (c ++ args))))))
              (uint8_to_buff-eq (length mainnet.arguments) count e2).0,
    )

-- If the gate is open with the metadata that the generator made of a template in store, a parse for
-- either of the template's two script hashes succeeds and shows the template: its name and its
-- arguments in order, each with its label, its index, and the type that its value must have. The
-- template's texts are ASCII without zeros of at most 100 characters, its arguments at most nine,
-- and its hashes of 32 bytes.
pub parse_tx_metadata-templates_to_metadata :
    (testnet mainnet : Template) (script_hash : Bytes) (s : Stored)
    → templates_to_metadata testnet mainnet ≡ ok s.metadata
    → IsReadableTemplate mainnet
    → length (from_hex testnet.hash) ≡ 32
    → length (from_hex mainnet.hash) ≡ 32
    → (script_hash ≡ from_hex testnet.hash) ⊎ (script_hash ≡ from_hex mainnet.hash)
    → is_open s ≡ true
    → parse_tx_metadata script_hash s ≡ ok (shown_template mainnet)
unfolding parse_tx_metadata
parse_tx_metadata-templates_to_metadata testnet mainnet script_hash s h readable size_t size_m
      listed opened =
    let (args, e, same) = metadata-eq testnet mainnet s.metadata readable.0 h in
    let rest = shown_name mainnet ++ (0 ∷ length mainnet.arguments ∷ args) in
    rw opened (
      ap (parse_tx_metadata_internal script_hash) same
      ∙ parse_internal_two (from_hex testnet.hash) (from_hex mainnet.hash) rest size_t size_m
          script_hash listed
      ∙ parse_body-template mainnet args readable e)
