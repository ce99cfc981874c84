-- ===== src/Js/Number.antt =====
-- IEEE doubles. Every finite double is a whole multiple of 2 ^ -1074, so a finite value is its sign
-- and the count of such units. js/src/serializePath.js computes path items and options as numbers.
mod Rounding
use native.Mathlib.Nat.{mul-lt-mul_of_pos_right, mul-le-mul_right, add-mul, mul-sub, mul_comm}
use native.Mathlib.Nat.{mul-mod_left}
use app_flow.Prelude.{
  ℕ, ◌+◌, ◌-◌, ◌*◌, ◌%◌, ◌^◌, ◌≤◌, ◌<◌, ◌≡◌, refl, sym, ap, ◌∙◌, Bool, true, false, ◌&&◌, not,
  arith, ltb, leb, ◌==◌, if◌then◌else◌, lt→ltb, le→ltb_false, le→leb,
}
pub use Rounding.{JsNumber, nan, infinite, finite, unit-pos, to_double_whole}
unfoldable pub use Rounding.{unit, to_double, round_units, last_place, nearest, bit_length, bits}

-- The number that is the whole number `n`.
abbrev pub of_ℕ : ℕ → JsNumber
of_ℕ n = finite false (n * unit)

unfoldable pub is_nan : JsNumber → Bool
is_nan nan = true
is_nan _ = false

-- `x >= n` for a whole number `n`; -0 is 0.
unfoldable pub ge : JsNumber → ℕ → Bool
ge nan n = false
ge (infinite neg) n = not neg
ge (finite false u) n = leb (n * unit) u
ge (finite true u) n = u == 0 && n == 0

-- `x > n`
unfoldable pub gt : JsNumber → ℕ → Bool
gt nan n = false
gt (infinite neg) n = not neg
gt (finite false u) n = ltb (n * unit) u
gt (finite true u) n = false

-- `x < 0`
unfoldable pub is_negative : JsNumber → Bool
is_negative nan = false
is_negative (infinite neg) = neg
is_negative (finite neg u) = neg && ltb 0 u

-- `n + x` for a whole number `n`.
unfoldable pub add_whole : ℕ → JsNumber → JsNumber
add_whole n nan = nan
add_whole n (infinite neg) = infinite neg
add_whole n (finite false u) = to_double false (n * unit + u) 1
add_whole n (finite true u) =
    if leb u (n * unit) then to_double false (n * unit - u) 1 else to_double true (u - n * unit) 1

-- `Number.isInteger(x)`
unfoldable pub is_integer : JsNumber → Bool
is_integer (finite neg u) = u % unit == 0
is_integer _ = false

sub-mul : (n m k : ℕ) → n * k - m * k ≡ (n - m) * k
sub-mul n m k = omega (arith, mul-sub k n m, mul_comm n k, mul_comm m k, mul_comm (n - m) k)

pub gt-of_ℕ : (n m : ℕ) → m ≤ n → gt (of_ℕ m) n ≡ false
unfolding gt
gt-of_ℕ n m h = le→ltb_false _ _ (mul-le-mul_right unit h)

pub ge-of_ℕ : (n m : ℕ) → m < n → ge (of_ℕ m) n ≡ false
unfolding ge
ge-of_ℕ n m h = ground (arith, mul-lt-mul_of_pos_right h unit-pos)

pub is_negative-of_ℕ : (n : ℕ) → is_negative (of_ℕ n) ≡ false
unfolding is_negative
is_negative-of_ℕ n = refl

pub is_integer-of_ℕ : (n : ℕ) → is_integer (of_ℕ n) ≡ true
unfolding is_integer
is_integer-of_ℕ n = ground (arith, mul-mod_left n unit)

pub add_whole-of_ℕ : (n m : ℕ) → n + m < 2 ^ 53 → add_whole n (of_ℕ m) ≡ of_ℕ (n + m)
unfolding add_whole
add_whole-of_ℕ n m h = rw (← add-mul n m unit) (to_double_whole false (n + m) h)

-- A sum with a negative whole number.
pub add_whole-negative :
    (n m : ℕ) → m ≤ n → n < 2 ^ 53 → add_whole n (finite true (m * unit)) ≡ of_ℕ (n - m)
unfolding add_whole
add_whole-negative n m h fits =
    let sub : n * unit - m * unit ≡ (n - m) * unit = sub-mul n m unit in
    rw (le→leb _ _ (mul-le-mul_right unit h), sub) (to_double_whole false (n - m) (omega arith))
