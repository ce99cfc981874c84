-- ===== src/Generator/Tuples.antt =====
-- `splitTo7Tuples` cuts a list into pieces of seven.
use app_flow.Prelude.{
  ℕ, zero, suc, ◌+◌, ◌*◌, ◌%◌, ◌≤◌, ◌<◌, ◌≡◌, refl, ap, ◌∙◌, some, List, [], ◌∷◌, arith, length,
  get_elem?, take, drop, length-drop,
}
use app_flow.Generator.Build.{tuples_from, split_to_7_tuples}

module _ {ℓ} {A : Type ℓ} where
  skip :
      (array rest : List A) (value : A) (index : ℕ)
      → 1 ≤ index % 7
      → tuples_from array (value ∷ rest) index ≡ tuples_from array rest (index + 1)
  unfolding tuples_from
  skip array rest value index h = ground arith

  hit :
      (array rest : List A) (value : A) (index : ℕ)
      → index % 7 ≡ 0
      → tuples_from array (value ∷ rest) index
        ≡ take 7 (drop index array) ∷ tuples_from array rest (index + 1)
  unfolding tuples_from
  hit array rest value index h = ground arith

  -- Behind a value at a multiple of seven, `r` more are skipped.
  skip_to :
      (r : ℕ) (array rest : List A) (index : ℕ)
      → r + index % 7 ≡ 7
      → 1 ≤ index % 7
      → tuples_from array rest index ≡ tuples_from array (drop r rest) (index + r)
  skip_to zero array rest index h p = absurd (omega arith)
  skip_to (suc r) array [] index h p = unfold tuples_from in refl
  skip_to (suc zero) array (value ∷ rest) index h p = skip array rest value index p
  skip_to (suc (suc r)) array (value ∷ rest) index h p =
      let n : index + 1 + suc r ≡ index + suc (suc r) = omega arith in
      skip array rest value index p
      ∙ skip_to (suc r) array rest (index + 1) (omega arith) (omega arith)
      ∙ ap (tuples_from array (drop (suc r) rest)) n

  -- One tuple, and the tuples of what is behind its seven values.
  tuples_step :
      (array rest : List A) (value : A) (j : ℕ)
      → tuples_from array (value ∷ rest) (7 * j)
        ≡ take 7 (drop (7 * j) array) ∷ tuples_from array (drop 6 rest) (7 * suc j)
  tuples_step array rest value j =
      let n : 7 * j + 1 + 6 ≡ 7 * suc j = omega arith in
      hit array rest value (7 * j) (omega arith)
      ∙ ap (λ more. take 7 (drop (7 * j) array) ∷ more)
          (skip_to 6 array rest (7 * j + 1) (omega arith) (omega arith)
            ∙ ap (tuples_from array (drop 6 rest)) n)

  get_elem?-tuples_from :
      (i : ℕ) (array rest : List A) (j : ℕ)
      → 7 * i < length rest
      → get_elem? (tuples_from array rest (7 * j)) i ≡ some (take 7 (drop (7 * (j + i)) array))
  get_elem?-tuples_from i array [] j h = absurd (omega arith)
  get_elem?-tuples_from zero array (value ∷ rest) j h =
      let n : 7 * j ≡ 7 * (j + 0) = omega arith in
      ap (λ ts. get_elem? ts 0) (tuples_step array rest value j)
      ∙ ap (λ k. some (take 7 (drop k array))) n
  get_elem?-tuples_from (suc i) array (value ∷ rest) j h =
      let n : 7 * (suc j + i) ≡ 7 * (j + suc i) = omega arith in
      let size = length-drop 6 rest in
      ap (λ ts. get_elem? ts (suc i)) (tuples_step array rest value j)
      ∙ get_elem?-tuples_from i array (drop 6 rest) (suc j) (omega (arith, size))
      ∙ ap (λ k. some (take 7 (drop k array))) n

  length-tuples_from :
      (k : ℕ) (array rest : List A) (j : ℕ)
      → length rest ≡ 7 * k
      → length (tuples_from array rest (7 * j)) ≡ k
  length-tuples_from zero array [] j h = unfold tuples_from in refl
  length-tuples_from (suc k) array [] j h = absurd (omega arith)
  length-tuples_from zero array (value ∷ rest) j h = absurd (omega arith)
  length-tuples_from (suc k) array (value ∷ rest) j h =
      let size = length-drop 6 rest in
      ap length (tuples_step array rest value j)
      ∙ ap suc (length-tuples_from k array (drop 6 rest) (suc j) (omega (arith, size)))

  -- The tuple at an index is the seven values from seven times the index on.
  pub get_elem?-split_to_7_tuples :
      (array : List A) (i : ℕ)
      → 7 * i < length array
      → get_elem? (split_to_7_tuples array) i ≡ some (take 7 (drop (7 * i) array))
  get_elem?-split_to_7_tuples array i h =
      let n : 7 * (0 + i) ≡ 7 * i = omega arith in
      get_elem?-tuples_from i array array 0 h ∙ ap (λ k. some (take 7 (drop k array))) n

  pub length-split_to_7_tuples :
      (k : ℕ) (array : List A) → length array ≡ 7 * k → length (split_to_7_tuples array) ≡ k
  length-split_to_7_tuples k array h = length-tuples_from k array array 0 h
