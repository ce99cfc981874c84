-- ===== src/Generator/Index.antt =====
-- The index: from the first 16 digits of a script hash to the leaf of its template.
use app_flow.Prelude.{
  ℕ, zero, suc, ◌+◌, ◌*◌, ◌<◌, ◌≤◌, ◌≡◌, refl, ap, sym, subst, ◌∙◌, Option, none, some, List, [],
  ◌∷◌, ◌++◌, arith, if◌then◌else◌, Text, text_eq, text_eq→eq, Bool-cases, inl, inr,
}
use app_flow.Js.Buffer.{slice}
use app_flow.Js.Hex.{hex_value}
use app_flow.Merkle.Tree.{Tree, string, node, child}
use app_flow.Sign.{LeafIndex, MerkleIndex, leaf, lookup}
use app_flow.Sign.Entries.{leaf-injective}

-- `parseInt(template.slice(0,2), 16)`: a template is hexadecimal, or empty and then has no hashes.
unfoldable pub number_of_hashes : Text → ℕ
number_of_hashes (a ∷ b ∷ _) = hex_value a * 16 + hex_value b
number_of_hashes _ = 0

abbrev pub key : Text → ℕ → Text
key template hash_no = slice template (2 + 64 * hash_no) (2 + 64 * hash_no + 2 * 8)

-- `merkleIndex[key] = at`
unfoldable pub set_entry : Text → LeafIndex → MerkleIndex → MerkleIndex
set_entry k at [] = (k, at) ∷ []
set_entry k at ((k', v) ∷ index) =
    let rest = set_entry k at index in if text_eq k' k then (k', at) ∷ index else (k', v) ∷ rest

-- The loop over the hashes of one template, of which `n` are left.
unfoldable pub add_hashes : ℕ → ℕ → Text → LeafIndex → MerkleIndex → MerkleIndex
add_hashes zero hash_no template at index = index
add_hashes (suc n) hash_no template at index =
    add_hashes n (suc hash_no) template at (set_entry (key template hash_no) at index)

-- The template of a leaf; `none` where an access throws.
abbrev pub text_of : Tree → Option Text
text_of (string s) = some s
text_of (node h ts) = none

abbrev pub bind {ℓ κ} : {A : Type ℓ} {B : Type κ} → Option A → (A → Option B) → Option B
bind none f = none
bind (some a) f = f a

abbrev pub template_at : Tree → LeafIndex → Option Text
template_at t at = bind (child t at.i0) λ n0.
    bind (child n0 at.i1)
      λ n1. bind (child n1 at.i2) λ n2. bind (child n2 at.i3) λ n3. bind (child n3 0) text_of

-- The body of the four loops, at each index in order.
unfoldable pub add_leaves : Tree → List LeafIndex → MerkleIndex → Option MerkleIndex
add_leaves t [] index = some index
add_leaves t (at ∷ rest) index =
    bind (template_at t at)
      λ template. add_leaves t rest (add_hashes (number_of_hashes template) 0 template at index)

abbrev pub sevenfold : (ℕ → List LeafIndex) → List LeafIndex
sevenfold f = f 0 ++ (f 1 ++ (f 2 ++ (f 3 ++ (f 4 ++ (f 5 ++ f 6)))))

abbrev pub leaf_indices : List LeafIndex
leaf_indices =
    sevenfold λ a.
      sevenfold λ b. sevenfold λ c. sevenfold λ d. record { i0 = a; i1 = b; i2 = c; i3 = d } ∷ []

unfoldable pub build_index : Tree → Option MerkleIndex
build_index t = add_leaves t leaf_indices []

-- The key is that of a hash of the leaf's template.
abbrev pub IsKeyOf : Tree → Text → LeafIndex → Type 0
IsKeyOf t k at =
    (template : Text) × (hash_no : ℕ) × (template_at t at ≡ some template)
    × (hash_no < number_of_hashes template)
    × (key template hash_no ≡ k)

abbrev pub AllKeys : Tree → MerkleIndex → Type 0
AllKeys t [] = Unit
AllKeys t ((k, at) ∷ index) = IsKeyOf t k at × AllKeys t index

pub bind-eq-some {ℓ κ} :
    {A : Type ℓ} {B : Type κ} (m : Option A) (f : A → Option B) {b : B}
    → bind m f ≡ some b
    → (a : A) × (m ≡ some a) × (f a ≡ some b)
bind-eq-some none f e = absurd (ground arith)
bind-eq-some (some a) f e = (a, refl, e)

set_entry-AllKeys :
    (t : Tree) (k : Text) (at : LeafIndex) (index : MerkleIndex)
    → IsKeyOf t k at
    → AllKeys t index
    → AllKeys t (set_entry k at index)
unfolding set_entry
set_entry-AllKeys t k at [] h hs = (h, tt)
set_entry-AllKeys t k at ((k', v) ∷ index) h (h', hs) = elim (Bool-cases (text_eq k' k)) [
  | inl e ↦ rw e (subst (λ x. IsKeyOf t x at) (sym (text_eq→eq k' k e)) h, hs)
  | inr e ↦ rw e (h', set_entry-AllKeys t k at index h hs)
]

add_hashes-AllKeys :
    (n hash_no : ℕ) (t : Tree) (template : Text) (at : LeafIndex) (index : MerkleIndex)
    → template_at t at ≡ some template
    → hash_no + n ≤ number_of_hashes template
    → AllKeys t index
    → AllKeys t (add_hashes n hash_no template at index)
unfolding add_hashes
add_hashes-AllKeys zero hash_no t template at index e small hs = hs
add_hashes-AllKeys (suc n) hash_no t template at index e small hs =
    add_hashes-AllKeys n (suc hash_no) t template at _ e (omega arith) (
      set_entry-AllKeys t (key template hash_no) at index (template, hash_no, e, omega arith, refl)
        hs)

add_leaves-AllKeys :
    (t : Tree) (ats : List LeafIndex) (index done : MerkleIndex)
    → AllKeys t index
    → add_leaves t ats index ≡ some done
    → AllKeys t done
unfolding add_leaves
add_leaves-AllKeys t [] index done hs e =
    subst (AllKeys t) (ap {A = Option MerkleIndex} (elim [ none ↦ index | some x ↦ x ]) e) hs
add_leaves-AllKeys t (at ∷ ats) index done hs e =
    let (template, found, more) = bind-eq-some (template_at t at) _ e in
    add_leaves-AllKeys t ats (add_hashes (number_of_hashes template) 0 template at index) done
      (add_hashes-AllKeys (number_of_hashes template) 0 t template at index found (omega arith) hs)
      more

lookup-AllKeys :
    (t : Tree) (k : Text) (at : LeafIndex) (index : MerkleIndex)
    → AllKeys t index
    → lookup k index ≡ leaf at
    → IsKeyOf t k at
unfolding lookup
lookup-AllKeys t k at [] hs e = absurd (ground arith)
lookup-AllKeys t k at ((k', v) ∷ index) (h, hs) e = elim (Bool-cases (text_eq k' k)) [
  | inl same ↦
      let at_v : leaf v ≡ leaf at = ap (λ b. if b then leaf v else lookup k index) (sym same) ∙ e in
      subst (λ x. IsKeyOf t k x) (leaf-injective at_v)
        (subst (λ x. IsKeyOf t x v) (text_eq→eq k' k same) h)
  | inr other ↦
      lookup-AllKeys t k at index hs
        (ap (λ b. if b then leaf v else lookup k index) (sym other) ∙ e)
]

-- Where the index that is built for a tree leads for a key, a leaf stands whose template has a hash
-- that starts with the key.
pub build_index-lookup :
    (t : Tree) (index : MerkleIndex) (k : Text) (at : LeafIndex)
    → build_index t ≡ some index
    → lookup k index ≡ leaf at
    → IsKeyOf t k at
unfolding build_index
build_index-lookup t index k at built e =
    lookup-AllKeys t k at index (add_leaves-AllKeys t leaf_indices [] index tt built) e
