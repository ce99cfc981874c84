-- ===== src/Device/Parse/ScriptHash.antt =====
-- `_validateScriptHash`: which hashes are found, and where the byte index is cut off.
use app_flow.Prelude.{
  ℕ, zero, suc, ◌+◌, ◌*◌, ◌%◌, ◌≤◌, ◌<◌, ◌≡◌, refl, ap, sym, ◌∙◌, Bool, true, false, [], ◌∷◌, arith,
  ◌==◌, Bytes, length, take, drop, get_or, ok, Bool-cases, >>=-eq-ok, lt-cases, drop-nil_of_le, inl,
  inr,
}
use app_flow.Device.Parse.{hash_matches, find_script}

drop-get_or :
    (i : ℕ) (bytes : Bytes)
    → i < length bytes
    → drop i bytes ≡ get_or bytes i 0 ∷ drop (suc i) bytes
drop-get_or i [] h = absurd (omega arith)
drop-get_or zero (b ∷ bytes) h = refl
drop-get_or (suc i) (b ∷ bytes) h = drop-get_or i bytes (omega arith)

-- One round of the loop.
matches_step :
    (b : ℕ) (hash : Bytes) (index n : ℕ) (metadata : Bytes)
    → index < 256
    → hash_matches (b ∷ hash) index n metadata ≡ ok true
    → (index < length metadata)
      × (get_or metadata index 0 ≡ b)
      × (hash_matches hash (index + 1) n metadata ≡ ok true)
unfolding hash_matches
matches_step b hash index n metadata small h = (ground arith, ground arith, ground arith)

-- A hash that matches stands at the index, if the index of its last byte fits a byte.
hash_matches-take :
    (hash : Bytes) (index n : ℕ) (metadata : Bytes)
    → index + length hash ≤ 256
    → hash_matches hash index n metadata ≡ ok true
    → take (length hash) (drop index metadata) ≡ hash
hash_matches-take [] index n metadata small h = refl
hash_matches-take (b ∷ hash) index n metadata small h =
    let (inside, same, rest) = matches_step b hash index n metadata (omega arith) h in
    let next : index + 1 ≡ suc index = omega arith in
    ap (take (suc (length hash))) (drop-get_or index metadata inside)
    ∙ ap (λ c. c ∷ take (length hash) (drop (suc index) metadata)) same
    ∙ ap (λ t. b ∷ t)
        (ap (λ k. take (length hash) (drop k metadata)) (sym next)
          ∙ hash_matches-take hash (index + 1) n metadata (omega arith) rest)

abbrev pub At : Bytes → Bytes → ℕ → Type 0
At script_hash metadata i = take 32 (drop (1 + i * 32) metadata) ≡ script_hash

pub find_script-At :
    (rounds i : ℕ) (script_hash : Bytes) (n : ℕ) (metadata : Bytes)
    → length script_hash ≡ 32
    → i + rounds ≤ 7
    → find_script rounds i script_hash n metadata ≡ ok tt
    → (k : ℕ) × (k < i + rounds) × At script_hash metadata k
unfolding find_script
find_script-At zero i script_hash n metadata size few h = absurd (ground arith)
find_script-At (suc rounds) i script_hash n metadata size few h =
    let (matches, found, rest) = >>=-eq-ok (hash_matches script_hash (1 + i * 32) n metadata) _ h in
    elim (Bool-cases matches) [
      | inl yes_here ↦ (
        i,
        omega arith,
        ap (λ k. take k (drop (1 + i * 32) metadata)) (sym size)
            ∙ hash_matches-take script_hash (1 + i * 32) n metadata (omega arith)
                (found ∙ ap ok yes_here),
      )
      | inr not_here ↦
          let (k, low, found) =
            find_script-At rounds (i + 1) script_hash n metadata size (omega arith)
              (rw not_here at rest) in
          (k, omega arith, found)
    ]

pub hash_matches-ok :
    (hash : Bytes) (index n : ℕ) (metadata : Bytes)
    → n ≤ 10
    → index + length hash ≤ length metadata
    → index + length hash ≤ 256
    → (matches : Bool) × (hash_matches hash index n metadata ≡ ok matches)
unfolding hash_matches
hash_matches-ok [] index n metadata few inside small = (true, refl)
hash_matches-ok (b ∷ hash) index n metadata few inside small =
    let (rest, e) = hash_matches-ok hash (index + 1) n metadata few (omega arith) (omega arith) in
    elim (Bool-cases (get_or metadata (index % 256) 0 == b)) [
      | inl same ↦ (rest, ground arith)
      | inr other ↦ (false, ground arith)
    ]

-- A hash that stands at the index matches.
pub hash_matches_at :
    (hash : Bytes) (index n : ℕ) (metadata : Bytes)
    → n ≤ 10
    → index + length hash ≤ 256
    → take (length hash) (drop index metadata) ≡ hash
    → hash_matches hash index n metadata ≡ ok true
unfolding hash_matches
hash_matches_at [] index n metadata few small here = refl
hash_matches_at (b ∷ hash) index n metadata few small here =
    elim (lt-cases index (length metadata)) [
      | inr past ↦ let e = ap (take (suc (length hash))) (drop-nil_of_le index metadata past) in cc
      | inl inside ↦
          let e = ap (take (suc (length hash))) (drop-get_or index metadata inside) in
          let next : suc index ≡ index + 1 = omega arith in
          let found = hash_matches_at hash (index + 1) n metadata few (omega arith) in
          let step : b ∷ hash
              ≡ get_or metadata index 0 ∷ take (length hash) (drop (index + 1) metadata) =
            sym here
            ∙ e
            ∙ ap (λ k. get_or metadata index 0 ∷ take (length hash) (drop k metadata)) next in
          ground (arith, found)
    ]
