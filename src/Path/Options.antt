-- ===== src/Path/Options.antt =====
-- What `validateCryptoOptions` accepts.
use native.Mathlib.Nat.{div-add-mod', div-lt_iff_lt-mul}
use app_flow.Prelude.{
  ℕ, zero, suc, ◌*◌, ◌/◌, ◌%◌, ◌^◌, ◌<◌, ◌≡◌, ◌⊎◌, inl, inr, refl, ap, ◌∙◌, subst, true, false,
  arith, Bytes, ok,
}
use app_flow.Js.Number.{
  JsNumber, of_ℕ, finite, infinite, nan, unit, unit-pos, ge, gt, is_negative, is_integer,
}
use app_flow.Js.Buffer.{le_bytes, store, write_uint_le, write_uint_le_whole, truncated}
use app_flow.Path.{OptionsArg, number, not_number, validate_crypto_options}

abbrev pub IsStoredAs : JsNumber → ℕ → Type 0
IsStoredAs x n = (buf : Bytes) (i : ℕ) → write_uint_le 2 buf x i ≡ ok (store buf i (le_bytes 2 n))

-- The number is the whole number `n`; 0 has two signs.
abbrev pub IsWholeNumber : JsNumber → ℕ → Type 0
IsWholeNumber x n = (x ≡ of_ℕ n) ⊎ ((x ≡ finite true 0) × (n ≡ 0))

plus_options :
    (u : ℕ)
    → u % unit ≡ 0
    → u < 65536 * unit
    → (n : ℕ) × (n < 2 ^ 16) × IsWholeNumber (finite false u) n × IsStoredAs (finite false u) n
plus_options u whole below =
    let n = u / unit in
    let exact : u ≡ n * unit = omega (arith, div-add-mod' u unit) in
    let small : n < 65536 = (div-lt_iff_lt-mul unit-pos).1 below in
    (
      n,
      small,
      inl (ap (finite false) exact),
      λ buf i.
          ap (λ v. write_uint_le 2 buf (finite false v) i) exact
          ∙ write_uint_le_whole 2 buf n i (omega arith),
    )

minus_zero : IsStoredAs (finite true 0) 0
unfolding write_uint_le gt is_negative truncated
minus_zero buf i = refl

options_cases :
    (x : JsNumber)
    → is_integer x ≡ true
    → is_negative x ≡ false
    → ge x 65536 ≡ false
    → (n : ℕ) × (n < 2 ^ 16) × IsWholeNumber x n × IsStoredAs x n
unfolding is_integer is_negative ge
options_cases (finite false u) whole plus below = plus_options u (ground arith) (ground arith)
options_cases (finite true zero) whole plus below = (0, omega arith, inr (refl, refl), minus_zero)
options_cases (finite true (suc u)) whole plus below = absurd (ground arith)
options_cases nan whole plus below = absurd (ground arith)
options_cases (infinite neg) whole plus below = absurd (ground arith)

validated :
    (x y : JsNumber)
    → validate_crypto_options (number x) ≡ ok y
    → (x ≡ y) × (is_integer x ≡ true) × (is_negative x ≡ false) × (ge x 65536 ≡ false)
unfolding validate_crypto_options
validated x y h = ground arith

-- Options that `validateCryptoOptions` accepts are returned as they are, and are a whole number below
-- 2 ^ 16, 0 with either sign, which every write of them in 16 bits stores.
pub validate_crypto_options_sound :
    (arg : OptionsArg) (x : JsNumber)
    → validate_crypto_options arg ≡ ok x
    → (n : ℕ) × (arg ≡ number x) × (n < 2 ^ 16) × IsWholeNumber x n × IsStoredAs x n
validate_crypto_options_sound not_number x h =
    absurd (unfold validate_crypto_options in ground arith)
validate_crypto_options_sound (number y) x h =
    let (same, whole, plus, below) = validated y x h in
    let (n, small, is_n, stored) = options_cases y whole plus below in
    (
      n,
      ap number same,
      small,
      subst (λ z. IsWholeNumber z n) same is_n,
      subst (λ z. IsStoredAs z n) same stored,
    )
