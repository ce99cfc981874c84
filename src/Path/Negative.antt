-- ===== src/Path/Negative.antt =====
-- An item with a minus sign.
use app_flow.Prelude.{
  ℕ, ◌-◌, ◌*◌, ◌^◌, ◌≤◌, ◌<◌, ◌≡◌, ap, ◌∙◌, true, false, [], ◌∷◌, ◌++◌, arith, ok,
}
use app_flow.Prelude.Digits.{format, value_from-format, format-All-IsDigit, format-ne-nil}
use app_flow.Js.Number.{
  finite, unit, is_nan, ge, of_ℕ, add_whole-negative, gt-of_ℕ, is_negative-of_ℕ,
}
use app_flow.Js.ToNumber.{to_number}
use app_flow.Js.ToNumber.Digits.{to_number_minus}
use app_flow.Js.Strings.{ends_with-append, drop_last-append}
use app_flow.Path.{hardened, prime, child_value}
use app_flow.Path.Failures.{IsWritable}

ge-minus : (u n : ℕ) → 0 < n → ge (finite true u) n ≡ false
unfolding ge
ge-minus u n h = ground arith

child_value_negative :
    (n : ℕ)
    → n ≤ hardened
    → child_value (b'-' ∷ (format n ++ prime ∷ [])) ≡ ok (of_ℕ (hardened - n))
unfolding child_value is_nan
child_value_negative n h =
    let v = value_from-format n in
    let e : to_number (b'-' ∷ format n) ≡ finite true (n * unit) =
      to_number_minus (format n) (format-ne-nil n) (format-All-IsDigit n) (rw v (omega arith))
      ∙ ap (λ k. finite true (k * unit)) v in
    rw
      (
        ends_with-append prime (b'-' ∷ format n),
        drop_last-append prime (b'-' ∷ format n),
        e,
        ge-minus (n * unit) hardened (omega arith),
      )
      (ap ok (add_whole-negative hardened n h (omega arith)))

-- An item `-n'` is taken for the index 2 ^ 31 - n, which is not hardened (for 0 < n up to 2 ^ 31).
pub child_value-negative_hardened :
    (n : ℕ)
    → n ≤ hardened
    → IsWritable (b'-' ∷ (format n ++ prime ∷ []))
      × (child_value (b'-' ∷ (format n ++ prime ∷ [])) ≡ ok (of_ℕ (hardened - n)))
child_value-negative_hardened n h =
    let e = child_value_negative n h in
    (
      (
        of_ℕ (hardened - n),
        e,
        (gt-of_ℕ (256 ^ 4 - 1) (hardened - n) (omega arith), is_negative-of_ℕ (hardened - n)),
      ),
      e,
    )
