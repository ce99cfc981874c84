-- ===== src/Generator/Levels.antt =====
-- One level of the tree: where its nodes' children are, and that their hashes are right.
use app_flow.Prelude.{
  ℕ, zero, suc, ◌+◌, ◌*◌, ◌<◌, ◌≡◌, refl, ap, ap₂, ◌∙◌, Option, none, some, List, [], ◌∷◌, ◌++◌,
  map, arith, Text, All, length, get_elem?, take, drop,
}
use app_flow.Js.Hex.{to_hex-append, to_hex, from_hex}
use app_flow.Merkle.Tree.{
  Tree, Trees, string, node, nil, cons, hash, join_hashes, get_elem?-children,
}
use app_flow.Device.Levels.{IsDigest, AllDigests, level_bytes, level_bytes-cons}
use app_flow.Generator.Build.{trees, feed}

module _ {ℓ κ} {A : Type ℓ} {B : Type κ} where
  pub get_elem?-map :
      (f : A → B) (xs : List A) (i : ℕ) {x : A}
      → get_elem? xs i ≡ some x
      → get_elem? (map f xs) i ≡ some (f x)
  get_elem?-map f [] i e = absurd (ground arith)
  get_elem?-map f (y ∷ xs) zero e =
      ap {A = Option A} (elim [ none ↦ some (f y) | some x ↦ some (f x) ]) e
  get_elem?-map f (y ∷ xs) (suc i) e = get_elem?-map f xs i e

  pub length-map : (f : A → B) (xs : List A) → length (map f xs) ≡ length xs
  length-map f [] = refl
  length-map f (x ∷ xs) = ap suc (length-map f xs)

  pub All-map {μ} :
      (P : B → Type μ) (f : A → B) → ((x : A) → P (f x)) → (xs : List A) → All P (map f xs)
  All-map P f h [] = tt
  All-map P f h (x ∷ xs) = (h x, All-map P f h xs)

module _ {ℓ} {A : Type ℓ} where
  get_elem?-take : (n : ℕ) (xs : List A) (i : ℕ) → i < n → get_elem? (take n xs) i ≡ get_elem? xs i
  get_elem?-take zero xs i h = absurd (omega arith)
  get_elem?-take (suc n) [] i h = refl
  get_elem?-take (suc n) (x ∷ xs) zero h = refl
  get_elem?-take (suc n) (x ∷ xs) (suc i) h = get_elem?-take n xs i (omega arith)

  get_elem?-drop : (n : ℕ) (xs : List A) (i : ℕ) → get_elem? (drop n xs) i ≡ get_elem? xs (n + i)
  get_elem?-drop zero xs i = ap (get_elem? xs) (omega arith)
  get_elem?-drop (suc n) [] i = refl
  get_elem?-drop (suc n) (x ∷ xs) i =
      let m : suc (n + i) ≡ suc n + i = omega arith in
      get_elem?-drop n xs i ∙ ap (get_elem? (x ∷ xs)) m

  pub All-take {κ} : (P : A → Type κ) (n : ℕ) (xs : List A) → All P xs → All P (take n xs)
  All-take P zero xs h = tt
  All-take P (suc n) [] h = tt
  All-take P (suc n) (x ∷ xs) (h, hs) = (h, All-take P n xs hs)

  pub All-drop {κ} : (P : A → Type κ) (n : ℕ) (xs : List A) → All P xs → All P (drop n xs)
  All-drop P zero xs h = h
  All-drop P (suc n) [] h = tt
  All-drop P (suc n) (x ∷ xs) (h, hs) = All-drop P n xs hs

  -- The element `i` of the tuple `p`.
  pub get_elem?-tuple :
      (xs : List A) (p i : ℕ)
      → i < 7
      → get_elem? (take 7 (drop (7 * p) xs)) i ≡ get_elem? xs (7 * p + i)
  get_elem?-tuple xs p i h = get_elem?-take 7 (drop (7 * p) xs) i h ∙ get_elem?-drop (7 * p) xs i

pub get_elem?-trees : (ts : List Tree) (i : ℕ) → get_elem?-children (trees ts) i ≡ get_elem? ts i
get_elem?-trees [] i = refl
get_elem?-trees (t ∷ ts) zero = refl
get_elem?-trees (t ∷ ts) (suc i) = get_elem?-trees ts i

-- An inner object with a hash of 32 bytes.
abbrev pub IsHashed : Tree → Type 0
IsHashed (string s) = ⊥
IsHashed (node h ts) = IsDigest h

-- The text is the print of bytes.
abbrev pub IsHex : Text → Type 0
IsHex s = to_hex (from_hex s) ≡ s

pub feed-trees : (ts : List Tree) → All IsHashed ts → feed ts ≡ join_hashes (trees ts)
feed-trees [] h = refl
feed-trees (string s ∷ ts) (h, hs) = absurd h
feed-trees (node d us ∷ ts) (h, hs) = ap (λ t. d ++ t) (feed-trees ts hs)

pub trees-AllDigests : (ts : List Tree) → All IsHashed ts → AllDigests (trees ts)
trees-AllDigests [] h = tt
trees-AllDigests (string s ∷ ts) (h, hs) = absurd h
trees-AllDigests (node d us ∷ ts) (h, hs) = (h, trees-AllDigests ts hs)

pub join_hashes-IsHex : (ts : Trees) → AllDigests ts → IsHex (join_hashes ts)
join_hashes-IsHex nil h = unfold from_hex to_hex in refl
join_hashes-IsHex (cons t ts) (h, hs) =
    ap to_hex (level_bytes-cons t ts h)
    ∙ to_hex-append (from_hex (hash t)) (level_bytes ts)
    ∙ ap₂ (λ a b. a ++ b) h.0 (join_hashes-IsHex ts hs)
