-- ===== src/Path/Items.antt =====
-- One path item, as text and as the value that is written for it.
use app_flow.Prelude.{
  ℕ, ◌+◌, ◌^◌, ◌<◌, ◌≡◌, ◌≢◌, ap, ◌∙◌, Bool, true, false, [], ◌∷◌, ◌++◌, append-nil, arith,
  if◌then◌else◌, Text, All, All-append, ok, Bool-cases, inl, inr,
}
use app_flow.Prelude.Digits.{format, IsDigit, value_from-format, format-All-IsDigit}
use app_flow.Js.Number.{is_nan, ge-of_ℕ, of_ℕ, add_whole-of_ℕ}
use app_flow.Js.ToNumber.{to_number}
use app_flow.Js.ToNumber.Digits.{to_number_digits}
use app_flow.Js.Strings.{Lacks, ends_with-append, drop_last-append, ends_with-Lacks}
use app_flow.Path.{hardened, prime, child_value}

-- An index and whether it is hardened.
pub record Item : Type 0 where
  pub index : ℕ
  pub is_hardened : Bool

abbrev pub IsItem : Item → Type 0
IsItem item = item.index < 2 ^ 31

abbrev pub item_text : Item → Text
item_text item = format item.index ++ (if item.is_hardened then prime ∷ [] else [])

abbrev pub item_value : Item → ℕ
item_value item = if item.is_hardened then hardened + item.index else item.index

pub digits-Lacks : (sep : ℕ) (s : Text) → sep < b'0' → All IsDigit s → Lacks sep s
digits-Lacks sep [] h _ = tt
digits-Lacks sep (c ∷ s) h (hc, hs) = (omega arith, digits-Lacks sep s h hs)

pub to_number-format : (n : ℕ) → n < 2 ^ 53 → to_number (format n) ≡ of_ℕ n
to_number-format n h =
    let v = value_from-format n in
    to_number_digits (format n) (format-All-IsDigit n) (rw v h) ∙ ap of_ℕ v

-- The value of an item's text, in front of which nothing and behind which no sign stands.
pub child_value_plain : (n : ℕ) → n < 2 ^ 31 → child_value (format n) ≡ ok (of_ℕ n)
unfolding child_value is_nan
child_value_plain n h =
    rw
      (
        ends_with-Lacks prime (format n)
            (digits-Lacks prime (format n) (omega arith) (format-All-IsDigit n)),
        to_number-format n (omega arith),
        ge-of_ℕ hardened n h,
      )
      (ap ok (add_whole-of_ℕ 0 n (omega arith) ∙ ap of_ℕ (omega arith)))

pub child_value-hardened :
    (n : ℕ) → n < 2 ^ 31 → child_value (format n ++ prime ∷ []) ≡ ok (of_ℕ (hardened + n))
unfolding child_value is_nan
child_value-hardened n h =
    rw
      (
        ends_with-append prime (format n),
        drop_last-append prime (format n),
        to_number-format n (omega arith),
        ge-of_ℕ hardened n h,
      )
      (ap ok (add_whole-of_ℕ hardened n (omega arith)))

-- The text of an item is read as the item's value.
pub child_value-item_text :
    (item : Item) → IsItem item → child_value (item_text item) ≡ ok (of_ℕ (item_value item))
child_value-item_text item h = elim (Bool-cases item.is_hardened) [
  | inl e ↦ rw e (child_value-hardened item.index h)
  | inr e ↦ rw (e, append-nil (format item.index)) (child_value_plain item.index h)
]

pub item_text-Lacks : (item : Item) → Lacks b'/' (item_text item)
item_text-Lacks item =
    All-append (λ c. c ≢ b'/') (format item.index) _
      (digits-Lacks b'/' (format item.index) (omega arith) (format-All-IsDigit item.index))
      (mark item.is_hardened)
  where
    mark : (h : Bool) → Lacks b'/' (if h then prime ∷ [] else [])
    mark true = (omega arith, tt)
    mark false = tt
