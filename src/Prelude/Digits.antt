-- ===== src/Prelude/Digits.antt =====
-- Decimal digits: how JavaScript prints an integer, and the value that digits spell.
use Prim.Native.Nat.{ℕ, zero, suc, ◌+◌, ◌-◌, ◌*◌, ◌/◌, ◌%◌, ◌≤◌, ◌<◌}
use mathlib.Core.Path.{◌≡◌, refl, ap, ◌∙◌}
use mathlib.Core.Bool.{Bool, ◌&&◌}
use mathlib.Core.Logic.{◌≢◌, inl, inr}
use mathlib.Core.List.{[], ◌∷◌, ◌++◌, foldl}
use native.Mathlib.Omega.{arith}
use app_flow.Prelude.Tests.{ltb, leb, if◌then◌else◌, lt→ltb, le→ltb_false, lt-cases}
use app_flow.Prelude.Lists.{Text, All, All-append, codes}

abbrev pub is_digit : ℕ → Bool
is_digit c = leb b'0' c && leb c b'9'

abbrev pub IsDigit : ℕ → Type 0
IsDigit c = (b'0' ≤ c) × (c ≤ b'9')

-- The number that digits spell behind `n`.
abbrev pub value_from : ℕ → Text → ℕ
value_from = foldl (λ n c. n * 10 + (c - b'0'))

value_from-append : (n : ℕ) (s t : Text) → value_from n (s ++ t) ≡ value_from (value_from n s) t
value_from-append n [] t = refl
value_from-append n (c ∷ s) t = value_from-append (n * 10 + (c - b'0')) s t

last_digit : ℕ → Text
last_digit n = (b'0' + n % 10) ∷ []

-- The digits of a number below `10 ^ fuel`, the first not a zero unless it is the only one.
spell : ℕ → ℕ → Text
unfolding last_digit
spell zero n = []
spell (suc fuel) n =
    let front = spell fuel (n / 10) in (if ltb n 10 then [] else front) ++ last_digit n

-- The decimal print of a number; a number has no more digits than one more than its size.
pub format : ℕ → Text
format n = spell (suc n) n

spell_short : (fuel n : ℕ) → n < 10 → spell (suc fuel) n ≡ last_digit n
unfolding spell
spell_short fuel n h =
    ap (λ b. (if b then [] else spell fuel (n / 10)) ++ last_digit n) (lt→ltb n 10 h)

spell_long : (fuel n : ℕ) → 10 ≤ n → spell (suc fuel) n ≡ spell fuel (n / 10) ++ last_digit n
unfolding spell
spell_long fuel n h =
    ap (λ b. (if b then [] else spell fuel (n / 10)) ++ last_digit n) (le→ltb_false n 10 h)

value_from-last_digit : (n : ℕ) → value_from (n / 10) (last_digit n) ≡ n
unfolding last_digit
value_from-last_digit n = omega arith

value_from-spell : (fuel n : ℕ) → n < fuel → value_from 0 (spell fuel n) ≡ n
value_from-spell zero n h = absurd (omega arith)
value_from-spell (suc fuel) n h = elim (lt-cases n 10) [
  | inl short ↦ ap (value_from 0) (spell_short fuel n short) ∙ unfold last_digit in omega arith
  | inr long ↦
      ap (value_from 0) (spell_long fuel n long)
      ∙ value_from-append 0 (spell fuel (n / 10)) (last_digit n)
      ∙ ap (λ v. value_from v (last_digit n)) (value_from-spell fuel (n / 10) (omega arith))
      ∙ value_from-last_digit n
]

last_digit-IsDigit : (n : ℕ) → All IsDigit (last_digit n)
unfolding last_digit
last_digit-IsDigit n = omega arith

spell-All-IsDigit : (fuel n : ℕ) → All IsDigit (spell fuel n)
spell-All-IsDigit zero n = unfold spell in tt
spell-All-IsDigit (suc fuel) n = elim (lt-cases n 10) [
  | inl short ↦ rw (spell_short fuel n short) (last_digit-IsDigit n)
  | inr long ↦ rw (spell_long fuel n long) (
      All-append IsDigit (spell fuel (n / 10)) (last_digit n) (spell-All-IsDigit fuel (n / 10))
        (last_digit-IsDigit n))
]

append-ne-nil : (s : Text) (c : ℕ) → s ++ c ∷ [] ≢ []
append-ne-nil [] c = λ e. ground arith
append-ne-nil (d ∷ s) c = λ e. ground arith

pub value_from-format : (n : ℕ) → value_from 0 (format n) ≡ n
unfolding format
value_from-format n = value_from-spell (suc n) n (omega arith)

pub format-All-IsDigit : (n : ℕ) → All IsDigit (format n)
unfolding format
format-All-IsDigit n = spell-All-IsDigit (suc n) n

pub format-ne-nil : (n : ℕ) → format n ≢ []
unfolding format spell last_digit
format-ne-nil n = append-ne-nil _ (b'0' + n % 10)

format_runs : format 2147483647 ≡ codes "2147483647"
unfolding format spell last_digit
format_runs = refl
