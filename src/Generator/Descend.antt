-- ===== src/Generator/Descend.antt =====
-- The way down a tree whose hashes are right, and the index of such a tree.
use app_flow.Prelude.{
  ℕ, zero, suc, ◌<◌, ◌≡◌, refl, ap, subst, ◌∙◌, Option, some, List, [], ◌∷◌, arith, Text, Bytes,
  All, All-append, All-imp, some-injective,
}
use app_flow.Js.Hex.{from_hex}
use app_flow.Merkle.Tree.{Tree, Trees, string, node, nil, cons, child, get_elem?-children}
use app_flow.Sign.{LeafIndex, MerkleIndex}
use app_flow.Device.Accepts.{IsStep, IsLeaf, IsProved}
use app_flow.Device.Honest.{AllTrees, IsWhole}
use app_flow.Generator.Index.{
  number_of_hashes, add_hashes, template_at, text_of, bind, add_leaves, sevenfold, leaf_indices,
  build_index, bind-eq-some,
}
use app_flow.Generator.Proofs.{InTree}

pub AllTrees-get_elem? :
    (P : Tree → Type 0) (ts : Trees) (i : ℕ) (c : Tree)
    → AllTrees P ts
    → get_elem?-children ts i ≡ some c
    → P c
AllTrees-get_elem? P nil i c h e = absurd (ground arith)
AllTrees-get_elem? P (cons t ts) zero c (h, hs) e = subst P (some-injective e) h
AllTrees-get_elem? P (cons t ts) (suc i) c (h, hs) e = AllTrees-get_elem? P ts i c hs e

module _ (sha256 : Bytes → Option Bytes) (P : Text → Type 0) where
  IsWhole-IsStep :
      (n : ℕ) (t : Tree) (i : ℕ) (c : Tree)
      → IsWhole sha256 P (suc n) t
      → child t i ≡ some c
      → IsStep sha256 t i c × IsWhole sha256 P n c
  IsWhole-IsStep n (string s) i c h e = absurd h
  IsWhole-IsStep n (node h ts) i c (digests, inner, digest) e =
      ((digests, e, digest), AllTrees-get_elem? (IsWhole sha256 P n) ts i c inner e)

  IsWhole-IsLeaf :
      (t x : Tree) (m : Text)
      → IsWhole sha256 P zero t
      → child t 0 ≡ some x
      → text_of x ≡ some m
      → IsLeaf sha256 t m × P m
  IsWhole-IsLeaf (string s) x m h e f = absurd h
  IsWhole-IsLeaf (node h nil) x m w e f = absurd w
  IsWhole-IsLeaf (node h (cons (node d us) ts)) x m w e f = absurd w
  IsWhole-IsLeaf (node h (cons (string s) ts)) x m (p, digest) e f =
      let same : s ≡ m = some-injective (ap text_of (some-injective e) ∙ f) in
      (
        (ap string same, subst (λ u. sha256 (from_hex u) ≡ some (from_hex h)) same digest),
        subst P same p,
      )

  -- A leaf's metadata has a proof, and is as all leaves' is.
  pub IsWhole-IsProved :
      (t : Tree) (at : LeafIndex) (m : Text)
      → IsWhole sha256 P 4 t
      → template_at t at ≡ some m
      → IsProved sha256 t at m × P m
  IsWhole-IsProved t at m whole e =
      let (n0, e0, f0) = bind-eq-some (child t at.i0) _ e in
      let (s0, w0) = IsWhole-IsStep 3 t at.i0 n0 whole e0 in
      let (n1, e1, f1) = bind-eq-some (child n0 at.i1) _ f0 in
      let (s1, w1) = IsWhole-IsStep 2 n0 at.i1 n1 w0 e1 in
      let (n2, e2, f2) = bind-eq-some (child n1 at.i2) _ f1 in
      let (s2, w2) = IsWhole-IsStep 1 n1 at.i2 n2 w1 e2 in
      let (n3, e3, f3) = bind-eq-some (child n2 at.i3) _ f2 in
      let (s3, w3) = IsWhole-IsStep 0 n2 at.i3 n3 w2 e3 in
      let (x, e4, f4) = bind-eq-some (child n3 0) text_of f3 in
      let (last, p) = IsWhole-IsLeaf n3 x m w3 e4 f4 in ((n0, n1, n2, n3, s0, s1, s2, s3, last), p)

module _ (sha256 : Bytes → Option Bytes) where
  IsStep-child : (t : Tree) (i : ℕ) (c : Tree) → IsStep sha256 t i c → child t i ≡ some c
  IsStep-child (string s) i c h = absurd h
  IsStep-child (node h ts) i c (digests, e, digest) = e

  IsLeaf-child : (t : Tree) (m : Text) → IsLeaf sha256 t m → bind (child t 0) text_of ≡ some m
  IsLeaf-child (string s) m h = absurd h
  IsLeaf-child (node h nil) m l = absurd l
  IsLeaf-child (node h (cons t ts)) m (e, digest) = ap text_of e

  pub IsProved-template_at :
      (t : Tree) (at : LeafIndex) (m : Text) → IsProved sha256 t at m → template_at t at ≡ some m
  IsProved-template_at t at m (n0, n1, n2, n3, s0, s1, s2, s3, last) =
      ap
        (λ o. bind o λ n.
          bind (child n at.i1)
            λ n. bind (child n at.i2) λ n. bind (child n at.i3) λ n. bind (child n 0) text_of)
        (IsStep-child t at.i0 n0 s0)
      ∙ ap
          (λ o.
            bind o
              λ n. bind (child n at.i2) λ n. bind (child n at.i3) λ n. bind (child n 0) text_of)
          (IsStep-child n0 at.i1 n1 s1)
      ∙ ap (λ o. bind o λ n. bind (child n at.i3) λ n. bind (child n 0) text_of)
          (IsStep-child n1 at.i2 n2 s2)
      ∙ ap (λ o. bind o λ n. bind (child n 0) text_of) (IsStep-child n2 at.i3 n3 s3)
      ∙ IsLeaf-child n3 m last

All-sevenfold :
    (P : LeafIndex → Type 0) (f : ℕ → List LeafIndex)
    → ((i : ℕ) → i < 7 → All P (f i))
    → All P (sevenfold f)
All-sevenfold P f h =
    let join = All-append P in
    join (f 0) _ (h 0 (omega arith)) (
      join (f 1) _ (h 1 (omega arith)) (
        join (f 2) _ (h 2 (omega arith)) (
          join (f 3) _ (h 3 (omega arith)) (
            join (f 4) _ (h 4 (omega arith))
              (join (f 5) (f 6) (h 5 (omega arith)) (h 6 (omega arith)))))))

leaf_indices-InTree : All InTree leaf_indices
leaf_indices-InTree =
    let leaf_at = λ (a b c d : ℕ). record { i0 = a; i1 = b; i2 = c; i3 = d } ∷ [] in
    All-sevenfold InTree (λ a. sevenfold λ b. sevenfold λ c. sevenfold (leaf_at a b c))
      (λ a ha.
        All-sevenfold InTree (λ b. sevenfold λ c. sevenfold (leaf_at a b c))
          (λ b hb.
            All-sevenfold InTree (λ c. sevenfold (leaf_at a b c))
              (λ c hc. All-sevenfold InTree (leaf_at a b c) (λ d hd. ((ha, hb, hc, hd), tt)))))

abbrev HasTemplate : Tree → LeafIndex → Type 0
HasTemplate t at = (m : Text) × (template_at t at ≡ some m)

add_leaves_total :
    (t : Tree) (ats : List LeafIndex) (index : MerkleIndex)
    → All (HasTemplate t) ats
    → (done : MerkleIndex) × (add_leaves t ats index ≡ some done)
unfolding add_leaves
add_leaves_total t [] index h = (index, refl)
add_leaves_total t (at ∷ ats) index ((m, e), hs) =
    let (done, f) = add_leaves_total t ats (add_hashes (number_of_hashes m) 0 m at index) hs in
    (done, rw (e, f) refl)

-- The loops over a tree that has a template at each index end with an index.
pub build_index_total :
    (t : Tree)
    → ((at : LeafIndex) → InTree at → HasTemplate t at)
    → (index : MerkleIndex) × (build_index t ≡ some index)
unfolding build_index
build_index_total t h =
    add_leaves_total t leaf_indices []
      (All-imp InTree (HasTemplate t) h leaf_indices leaf_indices-InTree)
