-- ===== src/Generator/Whole.antt =====
-- Each hash of the tree that the generator builds is right, and its leaves hold what was put in.
use app_flow.Prelude.{
  ℕ, zero, suc, ◌+◌, ◌%◌, ◌≡◌, ap, sym, subst, ◌∙◌, ◌==◌, Option, none, some, List, [], ◌∷◌, ◌++◌,
  append-nil, map, arith, Text, Bytes, All, get_elem?, drop, Bool-cases, inl, inr,
}
use app_flow.Js.Hex.{from_hex}
use app_flow.Merkle.Tree.{Tree, string}
use app_flow.Device.Levels.{IsDigest}
use app_flow.Device.Honest.{AllTrees, IsWhole}
use app_flow.Generator.Build.{
  trees, feed, process_merkle_tree_level, tuples_from, split_to_7_tuples, leaves, merge_levels,
  build,
}
use app_flow.Generator.Levels.{
  All-take, All-drop, IsHashed, IsHex, feed-trees, trees-AllDigests, join_hashes-IsHex,
}

All-tuples_from :
    {A : Type 0} (P : A → Type 0) (array rest : List A) (index : ℕ)
    → All P array
    → All (All P) (tuples_from array rest index)
unfolding tuples_from
All-tuples_from P array [] index h = tt
All-tuples_from P array (value ∷ rest) index h = elim (Bool-cases (index % 7 == 0)) [
  | inl e ↦ rw e (
    All-take P 7 (drop index array) (All-drop P index array h),
    All-tuples_from P array rest (index + 1) h,
  )
  | inr e ↦ rw e (All-tuples_from P array rest (index + 1) h)
]

pub All-map_of :
    {A B : Type 0} (P : A → Type 0) (Q : B → Type 0) (f : A → B)
    → ((x : A) → P x → Q (f x))
    → (xs : List A) → All P xs
    → All Q (map f xs)
All-map_of P Q f step [] h = tt
All-map_of P Q f step (x ∷ xs) (h, hs) = (step x h, All-map_of P Q f step xs hs)

pub get_elem?-All :
    {A : Type 0} (P : A → Type 0) (xs : List A) (i : ℕ) (x : A)
    → All P xs
    → get_elem? xs i ≡ some x
    → P x
get_elem?-All P [] i x h e = absurd (ground arith)
get_elem?-All P (y ∷ xs) zero x (h, hs) e =
    subst P (ap {A = Option _} (elim [ none ↦ y | some z ↦ z ]) e) h
get_elem?-All P (y ∷ xs) (suc i) x (h, hs) e = get_elem?-All P xs i x hs e

trees-AllTrees : (P : Tree → Type 0) (ts : List Tree) → All P ts → AllTrees P (trees ts)
trees-AllTrees P [] h = tt
trees-AllTrees P (t ∷ ts) (h, hs) = (h, trees-AllTrees P ts hs)

-- `sha256` is the generator's hash of hexadecimal text, `sha256_bytes` the device's of bytes.
module _ (sha256 : Text → Text) (sha256_bytes : Bytes → Option Bytes)
    (digests : (s : Text) → IsDigest (sha256 s))
    (agree : (s : Text) → IsHex s → sha256_bytes (from_hex s) ≡ some (from_hex (sha256 s)))
    (P : Text → Type 0) where
  abbrev IsPut : Text → Type 0
  IsPut m = P m × IsHex m

  abbrev IsBuilt : ℕ → Tree → Type 0
  IsBuilt n t = IsWhole sha256_bytes P n t × IsHashed t

  leaf-IsBuilt :
      (m : Text) → IsPut m → IsBuilt zero (process_merkle_tree_level sha256 (string m ∷ []))
  unfolding process_merkle_tree_level
  leaf-IsBuilt m (p, hex) = (
    (p, agree m hex ∙ ap (λ s. some (from_hex (sha256 s))) (sym (append-nil m))),
    digests (m ++ []),
  )

  All-IsHashed : (n : ℕ) (ts : List Tree) → All (IsBuilt n) ts → All IsHashed ts
  All-IsHashed n [] h = tt
  All-IsHashed n (t ∷ ts) (h, hs) = (h.1, All-IsHashed n ts hs)

  All-IsWhole : (n : ℕ) (ts : List Tree) → All (IsBuilt n) ts → All (IsWhole sha256_bytes P n) ts
  All-IsWhole n [] h = tt
  All-IsWhole n (t ∷ ts) (h, hs) = (h.0, All-IsWhole n ts hs)

  node-IsBuilt :
      (n : ℕ) (ts : List Tree)
      → All (IsBuilt n) ts
      → IsBuilt (suc n) (process_merkle_tree_level sha256 ts)
  unfolding process_merkle_tree_level
  node-IsBuilt n ts h =
      let hashed = All-IsHashed n ts h in
      let right = trees-AllDigests ts hashed in
      (
        (
          right,
          trees-AllTrees (IsWhole sha256_bytes P n) ts (All-IsWhole n ts h),
          agree _ (join_hashes-IsHex (trees ts) right)
              ∙ ap (λ s. some (from_hex (sha256 s))) (sym (feed-trees ts hashed)),
        ),
        digests (feed ts),
      )

  merge_levels-IsBuilt :
      (rounds n : ℕ) (level : List Tree)
      → All (IsBuilt n) level
      → All (IsBuilt (rounds + n)) (merge_levels sha256 rounds level)
  unfolding merge_levels
  merge_levels-IsBuilt zero n level h =
      let same : n ≡ zero + n = omega arith in subst (λ k. All (IsBuilt k) level) same h
  merge_levels-IsBuilt (suc rounds) n level h =
      let next =
        All-map_of (All (IsBuilt n)) (IsBuilt (suc n)) (process_merkle_tree_level sha256)
          (node-IsBuilt n) (split_to_7_tuples level)
          (All-tuples_from (IsBuilt n) level level 0 h) in
      let same : rounds + suc n ≡ suc rounds + n = omega arith in
      subst (λ k. All (IsBuilt k) (merge_levels sha256 (suc rounds) level)) same
        (merge_levels-IsBuilt rounds (suc n) _ next)

  pub build-IsWhole :
      (full : List Text) (t : Tree)
      → All IsPut full
      → build sha256 full ≡ some t
      → IsWhole sha256_bytes P 4 t
  unfolding build leaves
  build-IsWhole full t h e =
      let bottom =
        All-map_of IsPut (IsBuilt zero) (λ m. process_merkle_tree_level sha256 (string m ∷ []))
          leaf-IsBuilt full h in
      (get_elem?-All (IsBuilt 4) (merge_levels sha256 4 _) 0 t
        (merge_levels-IsBuilt 4 zero _ bottom) e).0
