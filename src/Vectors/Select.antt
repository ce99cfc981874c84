-- ===== src/Vectors/Select.antt =====
-- transaction_metadata/tests/index.js: which sample values are put together.
use app_flow.Prelude.{
  ℕ, zero, suc, ◌+◌, ◌-◌, Option, none, some, List, [], ◌∷◌, map, ltb, if◌then◌else◌, min, length,
  is_empty, get_elem?,
}
use app_flow.Vectors.Data.{Parameter}

abbrev pub count_from : ℕ → ℕ → List ℕ
count_from zero k = []
count_from (suc n) k = k ∷ count_from n (k + 1)

abbrev pub range : ℕ → ℕ → List ℕ
range start end = count_from (end - start) start

module _ {V : Type 0} where
  abbrev pub max_length : List (Parameter V) → ℕ
  max_length [] = 1
  max_length (p ∷ ps) =
      let rest = max_length ps in
      if ltb rest (length p.sample_values) then length p.sample_values else rest

  unfoldable pub number_of_required_tests : List (Parameter V) → ℕ
  number_of_required_tests args = max_length args

  -- `Math.min(index, sampleValues.length-1)`; `none` stands for -1.
  unfoldable pub last_or : ℕ → Option (Parameter V) → Option ℕ
  last_or index none = none
  last_or index (some p) =
      if is_empty p.sample_values then none else some (min index (length p.sample_values - 1))

  unfoldable pub select_argument_combinations : List (Parameter V) → List (List (Option ℕ))
  select_argument_combinations args =
      map (λ index. map (λ i. last_or index (get_elem? args i)) (range 0 (length args)))
        (range 0 (number_of_required_tests args))

  -- `sampleValues[index]`, with an index that may be undefined or -1.
  abbrev pub value_at : List V → Option (Option ℕ) → Option V
  value_at values (some (some index)) = get_elem? values index
  value_at values _ = none

  -- The values from argument `i` on.
  unfoldable pub sample_from : ℕ → List (Parameter V) → List (Option ℕ) → List (Option V)
  sample_from i [] combination = []
  sample_from i (p ∷ ps) combination =
      value_at p.sample_values (get_elem? combination i) ∷ sample_from (i + 1) ps combination

  abbrev pub sample_arguments : List (Parameter V) → List (Option ℕ) → List (Option V)
  sample_arguments args combination = sample_from 0 args combination
