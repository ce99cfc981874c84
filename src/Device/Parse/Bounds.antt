-- ===== src/Device/Parse/Bounds.antt =====
-- What a successful parse tells of the metadata: the sizes of what is read.
use app_flow.Prelude.{
  ℕ, zero, suc, ◌*◌, ◌≤◌, ◌<◌, ◌≡◌, refl, ap, ◌&&◌, not, [], ◌∷◌, List, Option, some, none, arith,
  ltb, leb, ◌==◌, Bytes, length, drop, ok, ◌>>=◌, All, is_empty, OkWith, >>=-OkWith, eq_ok-OkWith,
  always-OkWith, guarded-OkWith, if_both,
}
use app_flow.Device.Stored.{Stored, is_open}
use app_flow.Device.Parse.{
  ParseError, ParsedArgument, ParsedMetadata, read_char, read_rounds, read_string, read_bounds,
  read_expected, is_argument_type, parse_argument, parse_arguments, parse_body,
  parse_tx_metadata_internal, parse_tx_metadata, validate_script_hash,
}

-- A string that is read, and what is behind it.
abbrev IsShort : ℕ → Bytes × Bytes → Type 0
IsShort n (string, after) = length string < n

read_rounds-IsShort : (n : ℕ) (rest : Bytes) → OkWith (IsShort n) (read_rounds n rest)
unfolding read_rounds
read_rounds-IsShort zero rest = tt
read_rounds-IsShort (suc n) [] = tt
read_rounds-IsShort (suc n) (b ∷ rest) = if_both (OkWith (IsShort (suc n))) (b == 0) (omega arith) (
    >>=-OkWith (IsShort n) (IsShort (suc n)) (read_rounds n rest) _ (read_rounds-IsShort n rest)
      (λ (string, after) h. omega arith))

read_char-any : (rest : Bytes) → OkWith (λ _. Unit {0}) (read_char rest)
read_char-any rest = always-OkWith _ (read_char rest) (λ _. tt)

abbrev pub IsBounded : Option (ℕ × ℕ) → Type 0
IsBounded none = Unit
IsBounded (some (low, high)) = (low ≤ high) × (high ≤ 20)

-- What the views of the device rely on.
abbrev pub IsShowable : ParsedArgument → Type 0
IsShowable a =
    (1 ≤ a.argument_type)
    × (a.argument_type ≤ 7)
    × IsBounded a.bounds
    × (length a.display_key ≤ 100)
    × (length a.json_expected_type ≤ 100)

abbrev pub IsShowableMetadata : ParsedMetadata → Type 0
IsShowableMetadata m =
    (length m.tx_name ≤ 100) × (length m.arguments ≤ 9) × All IsShowable m.arguments

abbrev First {ℓ} : {A : Type ℓ} → (A → Type 0) → A × Bytes → Type 0
First P (a, after) = P a

read_bounds-IsBounded : (type : ℕ) (rest : Bytes) → OkWith (First IsBounded) (read_bounds type rest)
unfolding read_bounds read_char
read_bounds-IsBounded type [] = ground arith
read_bounds-IsBounded type (b ∷ []) = ground arith
read_bounds-IsBounded type (b ∷ c ∷ rest) = ground arith

abbrev IsShortType : Bytes × ℕ × Bytes → Type 0
IsShortType (json_type, kind, after) = length json_type ≤ 100

read_expected-IsShortType : (type : ℕ) (rest : Bytes) → OkWith IsShortType (read_expected type rest)
unfolding read_expected
read_expected-IsShortType type rest =
    if_both (OkWith {E = ParseError} IsShortType) (not (type == 0) && leb type 3)
      (>>=-OkWith (IsShort 101) IsShortType (read_string rest) _ (read_rounds-IsShort 101 rest)
        (λ (string, after) h.
          >>=-OkWith (λ _. Unit {0}) IsShortType (read_char after)
            (λ (kind, rest). ok (string, kind, rest)) (read_char-any after) (λ _ _. omega arith)))
      (ground arith)

parse_argument-IsShowable : (rest : Bytes) → OkWith (First IsShowable) (parse_argument rest)
unfolding parse_argument is_argument_type
parse_argument-IsShowable rest =
    >>=-OkWith (λ _. Unit {0}) (First IsShowable) (read_char rest) _ (read_char-any rest)
      (λ (type, r0) _. guarded-OkWith (First IsShowable) _ _ _ (λ known.
        >>=-OkWith (First IsBounded) (First IsShowable) (read_bounds type r0) _
          (read_bounds-IsBounded type r0)
          (λ (bounds, r1) hb.
            >>=-OkWith (IsShort 101) (First IsShowable) (read_string r1) _
              (read_rounds-IsShort 101 r1)
              (λ (key, r2) hk.
                >>=-OkWith (λ _. Unit {0}) (First IsShowable) (read_char r2) _ (read_char-any r2)
                  (λ (index, r3) _.
                    >>=-OkWith IsShortType (First IsShowable) (read_expected type r3)
                      (λ (json_type, kind, rest). ok (
                        record {
                          argument_type = type;
                          bounds = bounds;
                          display_key = key;
                          argument_index = index;
                          json_expected_type = json_type;
                          json_expected_kind = kind;
                        },
                        rest,
                      ))
                      (read_expected-IsShortType type r3)
                      (λ (json_type, kind, r4) ht.
                        (ground arith, ground arith, hb, omega arith, ht)))))))

abbrev AreShowable : ℕ → List ParsedArgument → Type 0
AreShowable n arguments = (length arguments ≡ n) × All IsShowable arguments

parse_arguments-AreShowable :
    (n : ℕ) (rest : Bytes) → OkWith (First (AreShowable n)) (parse_arguments n rest)
unfolding parse_arguments
parse_arguments-AreShowable zero rest = (refl, tt)
parse_arguments-AreShowable (suc n) rest =
    >>=-OkWith (First IsShowable) (First (AreShowable (suc n))) (parse_argument rest) _
      (parse_argument-IsShowable rest)
      (λ (argument, r1) ha.
        >>=-OkWith (First (AreShowable n)) (First (AreShowable (suc n))) (parse_arguments n r1) _
          (parse_arguments-AreShowable n r1)
          (λ (arguments, r2) (size, hs). (ap suc size, (ha, hs))))

parse_body-IsShowableMetadata : (rest : Bytes) → OkWith IsShowableMetadata (parse_body rest)
unfolding parse_body
parse_body-IsShowableMetadata rest =
    >>=-OkWith (IsShort 101) IsShowableMetadata (read_string rest) _ (read_rounds-IsShort 101 rest)
      (λ (name, r1) hn.
        >>=-OkWith (λ _. Unit {0}) IsShowableMetadata (read_char r1) _ (read_char-any r1)
          (λ (count, r2) _. guarded-OkWith IsShowableMetadata (ltb 9 count) _ _ (λ few.
            >>=-OkWith (First (AreShowable count)) IsShowableMetadata (parse_arguments count r2) _
              (parse_arguments-AreShowable count r2)
              (λ (arguments, r3) (size, hs).
                guarded-OkWith IsShowableMetadata (not (is_empty r3)) _
                  (ok (record { tx_name = name; arguments = arguments }))
                  (λ whole. (omega arith, ground arith, hs))))))

parse_internal-OkWith :
    (script_hash metadata : Bytes)
    → OkWith IsShowableMetadata (parse_tx_metadata_internal script_hash metadata)
unfolding parse_tx_metadata_internal read_char
parse_internal-OkWith script_hash [] = tt
parse_internal-OkWith script_hash (n ∷ rest) =
    guarded-OkWith IsShowableMetadata (ltb 10 n) _
      (validate_script_hash script_hash (n ∷ rest) >>= λ _. parse_body (drop (n * 32) rest))
      (λ few.
        >>=-OkWith (λ _. Unit {0}) IsShowableMetadata (validate_script_hash script_hash (n ∷ rest))
          (λ _. parse_body (drop (n * 32) rest)) (always-OkWith _ _ (λ _. tt))
          (λ _ _. parse_body-IsShowableMetadata (drop (n * 32) rest)))

-- What a successful parse returns fits the device's structures: a name of at most 100 bytes, at most
-- nine arguments, each of a type from 1 to 7 with a label and a JSON type of at most 100 bytes, and
-- the bounds of an array, if there are any, in order and at most 20.
pub parse_tx_metadata-IsShowableMetadata :
    (script_hash : Bytes) (s : Stored) (parsed : ParsedMetadata)
    → parse_tx_metadata script_hash s ≡ ok parsed
    → IsShowableMetadata parsed
unfolding parse_tx_metadata
parse_tx_metadata-IsShowableMetadata script_hash s parsed h =
    eq_ok-OkWith IsShowableMetadata (parse_tx_metadata script_hash s)
      (if_both (OkWith IsShowableMetadata) (is_open s)
        (parse_internal-OkWith script_hash s.metadata) tt)
      h
