-- ===== src/Js/ToNumber/Digits.antt =====
-- `Number` of decimal digits, and of a minus sign in front of them.
use native.Mathlib.Nat.{mul-one}
use mathlib.Core.List.{reverse, reverse-append, reverse-reverse}
use app_flow.Prelude.{
  ℕ, ◌*◌, ◌^◌, ◌<◌, ◌≡◌, ◌≢◌, refl, ap, ◌∙◌, Bool, true, false, List, [], ◌∷◌, append-nil, arith,
  Text, codes, All, All-append, text_eq,
}
use app_flow.Prelude.Digits.{IsDigit, value_from}
use app_flow.Js.Number.{finite, unit, to_double_whole, of_ℕ}
use app_flow.Js.ToNumber.{
  is_space, trim_start, trim, span_digits, fraction, exponent, scaled, literal, unsigned, signed,
  prefixed, trimmed, to_number,
}

abbrev NotSpace : ℕ → Type 0
NotSpace c = is_space c ≡ false

trim_start-NotSpace : (s : Text) → All NotSpace s → trim_start s ≡ s
unfolding trim_start
trim_start-NotSpace [] _ = refl
trim_start-NotSpace (c ∷ s) (h, _) = rw h

All-reverse {ℓ} : {A : Type ℓ} (P : A → Type 0) (s : List A) → All P s → All P (reverse s)
All-reverse P [] _ = tt
All-reverse P (c ∷ s) (h, hs) =
    rw (reverse-append (c ∷ []) s) (All-append P (reverse s) (c ∷ []) (All-reverse P s hs) (h, tt))

trim-NotSpace : (s : Text) → All NotSpace s → trim s ≡ s
unfolding trim
trim-NotSpace s h =
    rw (trim_start-NotSpace s h, trim_start-NotSpace (reverse s) (All-reverse NotSpace s h))
      (reverse-reverse s)

IsDigit-NotSpace : (s : Text) → All IsDigit s → All NotSpace s
unfolding is_space
IsDigit-NotSpace [] _ = tt
IsDigit-NotSpace (c ∷ s) (h, hs) = (ground arith, IsDigit-NotSpace s hs)

span_digits-All : (s : Text) → All IsDigit s → span_digits s ≡ (s, [])
unfolding span_digits
span_digits-All [] _ = refl
span_digits-All (c ∷ s) (h, hs) = ground (arith, span_digits-All s hs)

not_infinity : (s : Text) → All IsDigit s → text_eq s (codes "Infinity") ≡ false
not_infinity [] _ = refl
not_infinity (c ∷ s) h = ground arith

scaled_whole : (neg : Bool) (m : ℕ) → m < 2 ^ 53 → scaled neg m 0 (false, 0) ≡ finite neg (m * unit)
unfolding scaled
scaled_whole neg m fits = rw (mul-one m) (to_double_whole neg m fits)

literal_whole :
    (neg : Bool) (c : ℕ) (s : Text)
    → value_from 0 (c ∷ s) < 2 ^ 53
    → literal neg (c ∷ s) ([], []) ≡ finite neg (value_from 0 (c ∷ s) * unit)
unfolding literal exponent
literal_whole neg c s fits =
    ap (λ t. scaled neg (value_from 0 t) 0 (false, 0)) (append-nil (c ∷ s))
    ∙ scaled_whole neg _ fits

unsigned_digits :
    (neg : Bool) (c : ℕ) (s : Text)
    → All IsDigit (c ∷ s)
    → value_from 0 (c ∷ s) < 2 ^ 53
    → unsigned neg (c ∷ s) ≡ finite neg (value_from 0 (c ∷ s) * unit)
unfolding unsigned fraction
unsigned_digits neg c s h fits =
    rw (not_infinity (c ∷ s) h, span_digits-All (c ∷ s) h) (literal_whole neg c s fits)

signed_digits :
    (c : ℕ) (s : Text)
    → All IsDigit (c ∷ s)
    → value_from 0 (c ∷ s) < 2 ^ 53
    → signed (c ∷ s) ≡ of_ℕ (value_from 0 (c ∷ s))
unfolding signed
signed_digits c s h fits = ground (arith, unsigned_digits false c s h fits)

trimmed_digits :
    (s : Text) → All IsDigit s → value_from 0 s < 2 ^ 53 → trimmed s ≡ of_ℕ (value_from 0 s)
unfolding trimmed prefixed
trimmed_digits [] h fits = refl
trimmed_digits (c ∷ []) h fits = signed_digits c [] h fits
trimmed_digits (c ∷ d ∷ s) h fits = ground (arith, signed_digits c (d ∷ s) h fits)

-- Digits alone are read as the number that they spell.
pub to_number_digits :
    (s : Text) → All IsDigit s → value_from 0 s < 2 ^ 53 → to_number s ≡ of_ℕ (value_from 0 s)
unfolding to_number
to_number_digits s h fits = rw (trim-NotSpace s (IsDigit-NotSpace s h)) (trimmed_digits s h fits)

-- A minus sign in front of digits.
pub to_number_minus :
    (s : Text)
    → s ≢ []
    → All IsDigit s
    → value_from 0 s < 2 ^ 53
    → to_number (b'-' ∷ s) ≡ finite true (value_from 0 s * unit)
unfolding to_number trimmed signed is_space
to_number_minus [] ne h fits = absurd (ne refl)
to_number_minus (c ∷ s) ne h fits =
    rw (trim-NotSpace (b'-' ∷ c ∷ s) (refl, IsDigit-NotSpace (c ∷ s) h))
      (unsigned_digits true c s h fits)
