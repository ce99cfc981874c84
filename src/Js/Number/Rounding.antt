-- ===== src/Js/Number/Rounding.antt =====
-- Doubles, and rounding to the nearest one, ties to even.
use native.Mathlib.Nat.{
  add-zero, add-suc, pow-suc, mul_assoc, mul-one, div-one, mul-div_cancel, mul-mod_left,
  mul-lt-mul_of_pos_right, pow-le-pow_right, le_trans,
}
use app_flow.Prelude.{
  ℕ, zero, suc, ◌+◌, ◌-◌, ◌*◌, ◌/◌, ◌%◌, ◌^◌, ◌≤◌, ◌<◌, ◌≡◌, sym, ap, ◌∙◌, Bool, true, false, arith,
  ltb, ◌==◌, if◌then◌else◌, lt→ltb,
}

-- A finite value is `units / 2 ^ 1074`, negated where the first field is true.
pub data JsNumber : Type 0 where
  nan : JsNumber
  infinite : Bool → JsNumber
  finite : Bool → ℕ → JsNumber

unfoldable pub unit : ℕ
unit = 2 ^ 1074

unfoldable pub bits : ℕ → ℕ → ℕ
bits zero n = 0
bits (suc fuel) n = elim (n == 0) [ true ↦ 0 | false ↦ suc (bits fuel (n / 2)) ]

-- The number of binary digits; `n` rounds of halving are enough.
unfoldable pub bit_length : ℕ → ℕ
bit_length n = bits n n

-- a / d as the nearest whole number, the even one of two.
unfoldable pub nearest : ℕ → ℕ → ℕ
nearest a d =
    let q = a / d in
    let r = a % d in if ltb (2 * r) d then q else if ltb d (2 * r) then q + 1 else q + q % 2

-- The size of the last place of a double near `u` units.
unfoldable pub last_place : ℕ → ℕ
last_place u = 2 ^ (bit_length u - 53)

-- a / d units, to 53 binary digits.
unfoldable pub round_units : ℕ → ℕ → ℕ
round_units a d = let s = last_place (a / d) in nearest a (d * s) * s

-- The double nearest to a / d units.
unfoldable pub to_double : Bool → ℕ → ℕ → JsNumber
to_double neg a d =
    let u = round_units a d in if ltb u (2 ^ 1024 * unit) then finite neg u else infinite neg

pub unit-pos : 0 < unit
unfolding unit
unit-pos = omega arith

pow-add : (e k : ℕ) → 2 ^ (e + k) ≡ 2 ^ e * 2 ^ k
pow-add e zero = ap (λ t. 2 ^ t) (add-zero e) ∙ sym (mul-one (2 ^ e))
pow-add e (suc k) = simp (add-suc, pow-suc, pow-add e k, mul_assoc)

pow-pos : (e : ℕ) → 0 < 2 ^ e
pow-pos zero = omega arith
pow-pos (suc e) = omega (arith, pow-suc 2 e, pow-pos e)

bits-le : (fuel n k : ℕ) → n < 2 ^ k → bits fuel n ≤ k
unfolding bits
bits-le zero n k h = omega arith
bits-le (suc fuel) n zero h = ground arith
bits-le (suc fuel) n (suc k) h = ground (arith, pow-suc 2 k, bits-le fuel (n / 2) k)

nearest_exact : (x s : ℕ) → 0 < s → nearest (x * s) s ≡ x
unfolding nearest
nearest_exact x s h = ground (arith, mul-div_cancel x h, mul-mod_left x s)

lt-pow-add : (n a b : ℕ) → n < 2 ^ a → n * 2 ^ b < 2 ^ (a + b)
lt-pow-add n a b h = rw pow-add (mul-lt-mul_of_pos_right h (pow-pos b))

pow-split : (e x : ℕ) → x ≤ e → 2 ^ e ≡ 2 ^ (e - x) * 2 ^ x
pow-split e x h = let d : e ≡ e - x + x = omega arith in ap (λ t. 2 ^ t) d ∙ pow-add (e - x) x

-- Rounding at a place that divides the number changes nothing.
round_at : (n e x : ℕ) → x ≤ e → nearest (n * 2 ^ e) (1 * 2 ^ x) * 2 ^ x ≡ n * 2 ^ e
round_at n e x h =
    let split : n * 2 ^ e ≡ n * 2 ^ (e - x) * 2 ^ x =
      ap (λ t. n * t) (pow-split e x h) ∙ sym (mul_assoc n (2 ^ (e - x)) (2 ^ x)) in
    let one : 1 * 2 ^ x ≡ 2 ^ x = omega arith in
    rw (split, one, nearest_exact (n * 2 ^ (e - x)) (2 ^ x) (pow-pos x))

-- A whole number below 2 ^ 53 is its own nearest double, whatever the unit.
round_units_exact : (n e : ℕ) → n < 2 ^ 53 → round_units (n * 2 ^ e) 1 ≡ n * 2 ^ e
unfolding round_units last_place bit_length
round_units_exact n e h =
    let small : bits (n * 2 ^ e) (n * 2 ^ e) ≤ 53 + e =
      bits-le (n * 2 ^ e) (n * 2 ^ e) (53 + e) (lt-pow-add n 53 e h) in
    rw (div-one (n * 2 ^ e)) (round_at n e (bits (n * 2 ^ e) (n * 2 ^ e) - 53) (omega arith))

units_fit : (n : ℕ) → n < 2 ^ 53 → n * unit < 2 ^ 1024 * unit
units_fit n h =
    mul-lt-mul_of_pos_right
      (le_trans h (pow-le-pow_right {n = 2} (omega arith) {i = 53} {j = 1024} (omega arith)))
      unit-pos

pub to_double_whole :
    (neg : Bool) (n : ℕ) → n < 2 ^ 53 → to_double neg (n * unit) 1 ≡ finite neg (n * unit)
unfolding to_double
to_double_whole neg n h =
    let same : round_units (n * unit) 1 ≡ n * unit = unfold unit in round_units_exact n 1074 h in
    rw (same, lt→ltb _ _ (units_fit n h))
