-- ===== src/Device/Hashes.antt =====
-- When a hash is found in a list of hashes.
use app_flow.Prelude.{
  ℕ, zero, suc, ◌+◌, ◌*◌, ◌<◌, ◌≡◌, ◌↔◌, Bool, refl, ap, ◌∙◌, sym, true, false, ◌||◌, [], ◌∷◌,
  arith, Bytes, text_eq, text_eq→eq, text_eq_refl, length, take, drop, drop-drop, length-drop,
  Bool-cases, inl, inr,
}
use app_flow.Device.Stored.{has_hash}

-- The hash is one of the list's, at a multiple of 32.
abbrev pub Contains : Bytes → Bytes → Type 0
Contains hashes hash = (i : ℕ) × (32 * i < length hashes) × (take 32 (drop (32 * i) hashes) ≡ hash)

pub drop-next : (i : ℕ) (hashes : Bytes) → drop (32 * suc i) hashes ≡ drop (32 * i) (drop 32 hashes)
drop-next i hashes =
    let n : 32 * suc i ≡ 32 + 32 * i = omega arith in
    ap (λ k. drop k hashes) n ∙ sym (drop-drop (32 * i) 32 hashes)

lt-next :
    (i : ℕ) (hashes : Bytes) → (32 * suc i < length hashes) ↔ (32 * i < length (drop 32 hashes))
lt-next i hashes = rw (length-drop 32 hashes) (λ h. omega arith, λ h. omega arith)

pub has_hash-Contains :
    (fuel : ℕ) (hashes hash : Bytes) → has_hash fuel hashes hash ≡ true → Contains hashes hash
unfolding has_hash
has_hash-Contains zero hashes hash h = absurd (ground arith)
has_hash-Contains (suc fuel) [] hash h = absurd (ground arith)
has_hash-Contains (suc fuel) (c ∷ hashes) hash h =
    elim (Bool-cases (text_eq (take 32 (c ∷ hashes)) hash)) [
      | inl e ↦ (0, omega arith, text_eq→eq _ _ e)
      | inr e ↦
          let (i, lt, found) =
            has_hash-Contains fuel (drop 32 (c ∷ hashes)) hash
              (ap (λ b. b || has_hash fuel (drop 32 (c ∷ hashes)) hash) (sym e) ∙ h) in
          (suc i, (lt-next i (c ∷ hashes)).1 lt, ap (take 32) (drop-next i (c ∷ hashes)) ∙ found)
    ]

or_true : (a : Bool) {b : Bool} → b ≡ true → (a || b) ≡ true
or_true true h = refl
or_true false h = h

pub Contains-has_hash :
    (i fuel : ℕ) (hashes hash : Bytes)
    → i < fuel
    → 32 * i < length hashes
    → take 32 (drop (32 * i) hashes) ≡ hash
    → has_hash fuel hashes hash ≡ true
unfolding has_hash
Contains-has_hash i zero hashes hash hf hl h = absurd (omega arith)
Contains-has_hash i (suc fuel) [] hash hf hl h = absurd (omega arith)
Contains-has_hash zero (suc fuel) (c ∷ hashes) hash hf hl h =
    ap (λ b. b || has_hash fuel (drop 32 (c ∷ hashes)) hash)
      (ap (λ t. text_eq t hash) h ∙ text_eq_refl hash)
Contains-has_hash (suc i) (suc fuel) (c ∷ hashes) hash hf hl h =
    let more =
      Contains-has_hash i fuel (drop 32 (c ∷ hashes)) hash (omega arith)
        ((lt-next i (c ∷ hashes)).0 hl) (ap (take 32) (sym (drop-next i (c ∷ hashes))) ∙ h) in
    or_true _ more
