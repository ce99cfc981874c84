-- ===== src/Generator/Complete.antt =====
-- The index that is built has each leaf's keys.
use app_flow.Prelude.{
  ℕ, zero, suc, ◌+◌, ◌≤◌, ◌<◌, ◌≡◌, refl, ap, sym, subst, ◌∙◌, ◌⊎◌, inl, inr, some, List, [], ◌∷◌,
  ◌++◌, arith, Text, text_eq, text_eq_refl, Bool-cases, lt-cases, some-injective,
}
use app_flow.Merkle.Tree.{Tree}
use app_flow.Sign.{LeafIndex, MerkleIndex, leaf, lookup}
use app_flow.Generator.Index.{
  number_of_hashes, key, set_entry, add_hashes, template_at, add_leaves, sevenfold, leaf_indices,
  build_index, IsKeyOf, bind-eq-some,
}
use app_flow.Generator.Proofs.{InTree}

abbrev pub IsFound : Text → MerkleIndex → Type 0
IsFound k index = (at : LeafIndex) × (lookup k index ≡ leaf at)

set_entry_self :
    (k : Text) (at : LeafIndex) (index : MerkleIndex) → IsFound k (set_entry k at index)
unfolding set_entry lookup
set_entry_self k at [] = (at, rw (text_eq_refl k) refl)
set_entry_self k at ((j, v) ∷ index) = elim (Bool-cases (text_eq j k)) [
  | inl e ↦ (at, rw (e, e) refl)
  | inr e ↦ let (at', found) = set_entry_self k at index in (at', rw (e, e) found)
]

set_entry-IsFound :
    (k j : Text) (at : LeafIndex) (index : MerkleIndex)
    → IsFound k index
    → IsFound k (set_entry j at index)
unfolding set_entry lookup
set_entry-IsFound k j at [] (v, e) = elim (Bool-cases (text_eq j k)) [
  | inl same ↦ (at, rw same refl)
  | inr other ↦ (v, rw other e)
]
set_entry-IsFound k j at ((i, w) ∷ index) (v, e) = elim (Bool-cases (text_eq i k)) [
  | inl same ↦ elim (Bool-cases (text_eq i j)) [
    | inl f ↦ (at, rw (f, same) refl)
    | inr f ↦ (w, rw (f, same) refl)
  ]
  | inr other ↦
      let (u, found) = set_entry-IsFound k j at index (v, rw other at e) in
      elim (Bool-cases (text_eq i j)) [
        | inl f ↦ (v, rw (f, other) (rw other at e))
        | inr f ↦ (u, rw (f, other) found)
      ]
]

add_hashes-IsFound :
    (n hash_no : ℕ) (template k : Text) (at : LeafIndex) (index : MerkleIndex)
    → IsFound k index
    → IsFound k (add_hashes n hash_no template at index)
unfolding add_hashes
add_hashes-IsFound zero hash_no template k at index h = h
add_hashes-IsFound (suc n) hash_no template k at index h =
    add_hashes-IsFound n (suc hash_no) template k at _
      (set_entry-IsFound k (key template hash_no) at index h)

add_hashes-key :
    (n hash_no j : ℕ) (template : Text) (at : LeafIndex) (index : MerkleIndex)
    → hash_no ≤ j
    → j < hash_no + n
    → IsFound (key template j) (add_hashes n hash_no template at index)
unfolding add_hashes
add_hashes-key zero hash_no j template at index low high = absurd (omega arith)
add_hashes-key (suc n) hash_no j template at index low high = elim (lt-cases hash_no j) [
  | inl later ↦ add_hashes-key n (suc hash_no) j template at _ (omega arith) (omega arith)
  | inr now ↦
      let same : hash_no ≡ j = omega arith in
      add_hashes-IsFound n (suc hash_no) template (key template j) at _ (
        subst (λ i. IsFound (key template j) (set_entry (key template i) at index)) (sym same)
          (set_entry_self (key template j) at index))
]

add_leaves-IsFound :
    (t : Tree) (ats : List LeafIndex) (k : Text) (index done : MerkleIndex)
    → IsFound k index
    → add_leaves t ats index ≡ some done
    → IsFound k done
unfolding add_leaves
add_leaves-IsFound t [] k index done h e = subst (IsFound k) (some-injective e) h
add_leaves-IsFound t (at ∷ ats) k index done h e =
    let (template, found, more) = bind-eq-some (template_at t at) _ e in
    add_leaves-IsFound t ats k _ done
      (add_hashes-IsFound (number_of_hashes template) 0 template k at index h) more

-- Membership in a list.
abbrev In : {A : Type 0} → A → List A → Type 0
In x [] = ⊥
In x (y ∷ ys) = (x ≡ y) ⊎ In x ys

module _ {A : Type 0} (x : A) where
  In-front : (xs ys : List A) → In x xs → In x (xs ++ ys)
  In-front [] ys h = absurd h
  In-front (y ∷ xs) ys (inl e) = inl e
  In-front (y ∷ xs) ys (inr h) = inr (In-front xs ys h)

  In-back : (xs ys : List A) → In x ys → In x (xs ++ ys)
  In-back [] ys h = h
  In-back (y ∷ xs) ys h = inr (In-back xs ys h)

add_leaves-key :
    (t : Tree) (ats : List LeafIndex) (at : LeafIndex) (template : Text) (hash_no : ℕ)
    (index done : MerkleIndex)
    → In at ats
    → template_at t at ≡ some template
    → hash_no < number_of_hashes template
    → add_leaves t ats index ≡ some done
    → IsFound (key template hash_no) done
unfolding add_leaves
add_leaves-key t [] at template hash_no index done inside stands small e = absurd inside
add_leaves-key t (now ∷ ats) at template hash_no index done (inr later) stands small e =
    let (other, found, more) = bind-eq-some (template_at t now) _ e in
    add_leaves-key t ats at template hash_no _ done later stands small more
add_leaves-key t (now ∷ ats) at template hash_no index done (inl same) stands small e =
    let (other, found, more) = bind-eq-some (template_at t now) _ e in
    let its : other ≡ template =
      some-injective (sym found ∙ ap (template_at t) (sym same) ∙ stands) in
    add_leaves-IsFound t ats (key template hash_no) _ done
      (subst (λ x. IsFound (key template hash_no) (add_hashes (number_of_hashes x) 0 x now index))
        (sym its)
        (add_hashes-key (number_of_hashes template) 0 hash_no template now index (omega arith)
          (omega arith)))
      more

In-sevenfold :
    (f : ℕ → List LeafIndex) (at : LeafIndex) (i : ℕ) → i < 7 → In at (f i) → In at (sevenfold f)
In-sevenfold f at zero small h = In-front at (f 0) _ h
In-sevenfold f at (suc zero) small h = In-back at (f 0) _ (In-front at (f 1) _ h)
In-sevenfold f at (suc (suc zero)) small h =
    In-back at (f 0) _ (In-back at (f 1) _ (In-front at (f 2) _ h))
In-sevenfold f at (suc (suc (suc zero))) small h =
    In-back at (f 0) _ (In-back at (f 1) _ (In-back at (f 2) _ (In-front at (f 3) _ h)))
In-sevenfold f at (suc (suc (suc (suc zero)))) small h =
    In-back at (f 0) _
      (In-back at (f 1) _ (In-back at (f 2) _ (In-back at (f 3) _ (In-front at (f 4) _ h))))
In-sevenfold f at (suc (suc (suc (suc (suc zero))))) small h = In-back at (f 0) _ (
    In-back at (f 1) _
      (In-back at (f 2) _ (In-back at (f 3) _ (In-back at (f 4) _ (In-front at (f 5) _ h)))))
In-sevenfold f at (suc (suc (suc (suc (suc (suc zero)))))) small h = In-back at (f 0) _ (
    In-back at (f 1) _
      (In-back at (f 2) _ (In-back at (f 3) _ (In-back at (f 4) _ (In-back at (f 5) _ h)))))
In-sevenfold f at (suc (suc (suc (suc (suc (suc (suc i))))))) small h = absurd (omega arith)

leaf_indices-In : (at : LeafIndex) → InTree at → In at leaf_indices
leaf_indices-In at (h0, h1, h2, h3) =
    let leaf_at = λ (a b c d : ℕ). record { i0 = a; i1 = b; i2 = c; i3 = d } ∷ [] in
    In-sevenfold (λ a. sevenfold λ b. sevenfold λ c. sevenfold (leaf_at a b c)) at at.i0 h0
      (In-sevenfold (λ b. sevenfold λ c. sevenfold (leaf_at at.i0 b c)) at at.i1 h1
        (In-sevenfold (λ c. sevenfold (leaf_at at.i0 at.i1 c)) at at.i2 h2
          (In-sevenfold (leaf_at at.i0 at.i1 at.i2) at at.i3 h3 (inl refl))))

-- The index that is built for a tree has each key of each leaf.
pub build_index-IsFound :
    (t : Tree) (index : MerkleIndex) (k : Text) (at : LeafIndex)
    → build_index t ≡ some index
    → InTree at
    → IsKeyOf t k at
    → IsFound k index
unfolding build_index
build_index-IsFound t index k at built inside (template, hash_no, stands, small, same) =
    subst (λ x. IsFound x index) same
      (add_leaves-key t leaf_indices at template hash_no [] index (leaf_indices-In at inside) stands
        small built)
