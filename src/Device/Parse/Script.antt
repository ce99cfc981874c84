-- ===== src/Device/Parse/Script.antt =====
-- What a successful parse tells of the script: its hash is one that the metadata lists.
use app_flow.Prelude.{
  ℕ, ◌*◌, ◌≤◌, ◌<◌, ◌≡◌, refl, ap, true, [], ◌∷◌, arith, ltb, Bytes, length, drop, ok, err,
  >>=-eq-ok, Bool-cases, inl, inr, drop-nil_of_le, lt-cases,
}
use app_flow.Device.Stored.{Stored, is_open}
use app_flow.Device.Parse.{
  ParsedMetadata, metadata_error, read_char, read_rounds, parse_body, validate_script_hash,
  parse_tx_metadata_internal, parse_tx_metadata,
}
use app_flow.Device.Parse.ScriptHash.{At, find_script-At}

-- The metadata counts at most seven hashes, and the script's is one of those.
abbrev pub Lists : Bytes → Bytes → Type 0
Lists metadata script_hash =
    (n : ℕ) × (rest : Bytes) × (metadata ≡ n ∷ rest)
    × (n ≤ 7)
    × ((k : ℕ) × (k < n) × At script_hash metadata k)

parse_body_empty : parse_body [] ≡ err metadata_error
unfolding parse_body read_rounds
parse_body_empty = refl

-- No more than seven hashes fit in front of a name.
few_hashes :
    (n : ℕ) (rest : Bytes) (parsed : ParsedMetadata)
    → length rest < 255
    → parse_body (drop (n * 32) rest) ≡ ok parsed
    → n ≤ 7
few_hashes n rest parsed small h = elim (lt-cases 7 n) [
  | inr few ↦ few
  | inl many ↦
      let past = ap parse_body (drop-nil_of_le (n * 32) rest (omega arith)) in
      cc (past, parse_body_empty)
]

validate-At :
    (n : ℕ) (rest script_hash : Bytes)
    → length script_hash ≡ 32
    → n ≤ 7
    → validate_script_hash script_hash (n ∷ rest) ≡ ok tt
    → (k : ℕ) × (k < n) × At script_hash (n ∷ rest) k
unfolding validate_script_hash
validate-At n rest script_hash size few valid =
    let (k, low, found) = find_script-At n 0 script_hash n (n ∷ rest) size (omega arith) valid in
    (k, omega arith, found)

internal-Lists :
    (script_hash metadata : Bytes) (parsed : ParsedMetadata)
    → length script_hash ≡ 32
    → length metadata ≤ 255
    → parse_tx_metadata_internal script_hash metadata ≡ ok parsed
    → Lists metadata script_hash
unfolding parse_tx_metadata_internal read_char
internal-Lists script_hash [] parsed size small h = absurd (ground arith)
internal-Lists script_hash (n ∷ rest) parsed size small h = elim (Bool-cases (ltb 10 n)) [
  | inl many ↦ absurd (ground arith)
  | inr allowed ↦
      let (_, valid, body) =
        >>=-eq-ok (validate_script_hash script_hash (n ∷ rest))
          (λ _. parse_body (drop (n * 32) rest)) (rw allowed at h) in
      let few = few_hashes n rest parsed (omega arith) body in
      let (k, low, found) = validate-At n rest script_hash size few valid in
      (n, rest, refl, few, (k, low, found))
]

-- If a parse succeeds on a store of at most 255 bytes, the store counts at most seven hashes, and the
-- 32 bytes of one of them are the script's hash: no other script is shown under the metadata's name.
pub parse_tx_metadata-Lists :
    (script_hash : Bytes) (s : Stored) (parsed : ParsedMetadata)
    → length script_hash ≡ 32
    → length s.metadata ≤ 255
    → parse_tx_metadata script_hash s ≡ ok parsed
    → (is_open s ≡ true) × Lists s.metadata script_hash
unfolding parse_tx_metadata
parse_tx_metadata-Lists script_hash s parsed size small h = elim (Bool-cases (is_open s)) [
  | inl opened ↦ (opened, internal-Lists script_hash s.metadata parsed size small (rw opened at h))
  | inr shut ↦ absurd (ground arith)
]
