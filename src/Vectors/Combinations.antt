-- ===== src/Vectors/Combinations.antt =====
-- `selectArgumentCombinations` with `sampleArguments`: which values the cases of a template have.
use app_flow.Prelude.{
  ℕ, zero, suc, ◌+◌, ◌-◌, ◌≤◌, ◌<◌, ◌≡◌, refl, ap, ◌∙◌, Option, none, some, List, [], ◌∷◌, map, min,
  arith, ltb, false, is_empty, if◌then◌else◌, length, get_elem?, subst, sym, ◌⊎◌, All, All-imp,
  Bool-cases, inl, inr, some-injective,
}
use app_flow.Vectors.Data.{Parameter}
use app_flow.Vectors.Select.{
  count_from, range, max_length, number_of_required_tests, last_or, select_argument_combinations,
  value_at, sample_from, sample_arguments,
}
use app_flow.Generator.Levels.{get_elem?-map, length-map}

get_elem?-count_from : (n k i : ℕ) → i < n → get_elem? (count_from n k) i ≡ some (k + i)
get_elem?-count_from zero k i h = absurd (omega arith)
get_elem?-count_from (suc n) k zero h = ap some (omega arith)
get_elem?-count_from (suc n) k (suc i) h =
    get_elem?-count_from n (k + 1) i (omega arith) ∙ ap some (omega arith)

get_elem?-range : (n i : ℕ) → i < n → get_elem? (range 0 n) i ≡ some i
get_elem?-range n i h = get_elem?-count_from (n - 0) 0 i (omega arith) ∙ ap some (omega arith)

length-count_from : (n k : ℕ) → length (count_from n k) ≡ n
length-count_from zero k = refl
length-count_from (suc n) k = ap suc (length-count_from n (k + 1))

module _ {V : Type 0} where
  is_empty_pos : (xs : List V) → 0 < length xs → is_empty xs ≡ false
  is_empty_pos [] h = absurd (omega arith)
  is_empty_pos (x ∷ xs) h = refl

  get_elem?-inside :
      (args : List (Parameter V)) (i : ℕ) (p : Parameter V)
      → get_elem? args i ≡ some p
      → i < length args
  get_elem?-inside [] i p h = absurd (ground arith)
  get_elem?-inside (q ∷ args) zero p h = omega arith
  get_elem?-inside (q ∷ args) (suc i) p h = omega (arith, get_elem?-inside args i p h)

  length-le-max_length :
      (args : List (Parameter V)) (i : ℕ) (p : Parameter V)
      → get_elem? args i ≡ some p
      → length p.sample_values ≤ max_length args
  length-le-max_length [] i p h = absurd (ground arith)
  length-le-max_length (q ∷ args) zero p h =
      let same = ap (λ (x : Parameter V). length x.sample_values) (some-injective h) in
      elim (Bool-cases (ltb (max_length args) (length q.sample_values))) [
        | inl more ↦ rw more (omega (arith, same))
        | inr less ↦ rw less (ground (arith, same))
      ]
  length-le-max_length (q ∷ args) (suc i) p h =
      let rest = length-le-max_length args i p h in
      elim (Bool-cases (ltb (max_length args) (length q.sample_values))) [
        | inl more ↦ rw more (ground (arith, rest))
        | inr less ↦ rw less rest
      ]

  get_elem?-sample_from :
      (args : List (Parameter V)) (start i : ℕ) (combination : List (Option ℕ)) (p : Parameter V)
      → get_elem? args i ≡ some p
      → get_elem? (sample_from start args combination) i
        ≡ some (value_at p.sample_values (get_elem? combination (start + i)))
  unfolding sample_from
  get_elem?-sample_from [] start i combination p h = absurd (ground arith)
  get_elem?-sample_from (q ∷ args) start zero combination p h =
      let n : start ≡ start + 0 = omega arith in
      ap (λ (x : Parameter V). some (value_at x.sample_values (get_elem? combination start)))
        (some-injective h)
      ∙ ap (λ k. some (value_at p.sample_values (get_elem? combination k))) n
  get_elem?-sample_from (q ∷ args) start (suc i) combination p h =
      let n : start + 1 + i ≡ start + suc i = omega arith in
      get_elem?-sample_from args (start + 1) i combination p h
      ∙ ap (λ k. some (value_at p.sample_values (get_elem? combination k))) n

  abbrev combination : List (Parameter V) → ℕ → List (Option ℕ)
  combination args index = map (λ i. last_or index (get_elem? args i)) (range 0 (length args))

  get_elem?-combination :
      (args : List (Parameter V)) (index i : ℕ) (p : Parameter V)
      → i < length args
      → get_elem? args i ≡ some p
      → 0 < length p.sample_values
      → get_elem? (combination args index) i ≡ some (some (min index (length p.sample_values - 1)))
  unfolding last_or
  get_elem?-combination args index i p small h some_values =
      get_elem?-map (λ k. last_or index (get_elem? args k)) (range 0 (length args)) i
        (get_elem?-range (length args) i small)
      ∙ ap (λ o. some (last_or index o)) h
      ∙ ap (λ b. some (if b then none else some (min index (length p.sample_values - 1))))
          (is_empty_pos p.sample_values some_values)

  -- The combination at an index below the number of required tests gives an argument that has sample
  -- values the one at that index, or its last one. There are as many combinations as required tests,
  -- and no fewer than the argument has sample values.
  pub select_argument_combinations-sample_arguments :
      (args : List (Parameter V)) (index i : ℕ) (p : Parameter V)
      → index < number_of_required_tests args
      → get_elem? args i ≡ some p
      → 0 < length p.sample_values
      → (chosen : List (Option ℕ)) × (get_elem? (select_argument_combinations args) index
          ≡ some chosen)
        × (get_elem? (sample_arguments args chosen) i
            ≡ some (get_elem? p.sample_values (min index (length p.sample_values - 1))))
        × (length (select_argument_combinations args) ≡ number_of_required_tests args)
        × (length p.sample_values ≤ number_of_required_tests args)
  unfolding select_argument_combinations number_of_required_tests
  select_argument_combinations-sample_arguments args index i p small h some_values =
      let inside = get_elem?-inside args i p h in
      let zero_i : 0 + i ≡ i = omega arith in
      (
        combination args index,
        get_elem?-map (combination args) (range 0 (max_length args)) index
            (get_elem?-range (max_length args) index small),
        get_elem?-sample_from args 0 i (combination args index) p h
            ∙ ap (λ o. some (value_at p.sample_values o))
                (ap (get_elem? (combination args index)) zero_i
                  ∙ get_elem?-combination args index i p inside h some_values),
        length-map (combination args) (range 0 (max_length args))
            ∙ length-count_from (max_length args - 0) 0
            ∙ omega arith,
        length-le-max_length args i p h,
      )

  -- The number is 1 or that of an argument's sample values, and no less than 1 or any of these.
  abbrev pub IsLongest : List (Parameter V) → ℕ → Type 0
  IsLongest args n =
      (1 ≤ n)
      × All (λ (p : Parameter V). length p.sample_values ≤ n) args
      × ((n ≡ 1)
          ⊎ ((i : ℕ) × (p : Parameter V) × (get_elem? args i ≡ some p)
              × (n ≡ length p.sample_values)))

  max_length-IsLongest : (args : List (Parameter V)) → IsLongest args (max_length args)
  max_length-IsLongest [] = (omega arith, tt, inl refl)
  max_length-IsLongest (q ∷ args) =
      let (one, all, from) = max_length-IsLongest args in
      elim (Bool-cases (ltb (max_length args) (length q.sample_values))) [
        | inl more ↦
            let longer : max_length args ≤ length q.sample_values = ground arith in
            let same : max_length (q ∷ args) ≡ length q.sample_values = rw more refl in
            let others =
              All-imp (λ (p : Parameter V). length p.sample_values ≤ max_length args)
                (λ (p : Parameter V). length p.sample_values ≤ length q.sample_values)
                (λ p h. omega (arith, h, longer)) args all in
            subst (IsLongest (q ∷ args)) (sym same)
              (omega (arith, one, longer), (omega arith, others), inr (0, q, refl, refl))
        | inr less ↦
            let same : max_length (q ∷ args) ≡ max_length args = rw less refl in
            subst (IsLongest (q ∷ args)) (sym same) (
              one,
              (ground (arith, less), all),
              elim from [ inl e ↦ inl e | inr (i, p, at, e) ↦ inr (suc i, p, at, e) ],
            )
      ]

  -- There are as many combinations as the longest list of sample values has elements, and one if there
  -- is no argument or none has sample values.
  pub select_argument_combinations-IsLongest :
      (args : List (Parameter V)) → IsLongest args (length (select_argument_combinations args))
  unfolding select_argument_combinations number_of_required_tests
  select_argument_combinations-IsLongest args =
      let count =
        length-map (combination args) (range 0 (max_length args))
        ∙ length-count_from (max_length args - 0) 0
        ∙ omega arith in
      subst (IsLongest args) (sym count) (max_length-IsLongest args)
