-- ===== src/Generator/Cut.antt =====
-- The branches with no metadata are cut from the tree that is shipped.
use app_flow.Prelude.{
  ℕ, zero, suc, ◌≡◌, ◌≢◌, refl, ap, ap₂, sym, subst, ◌∙◌, Option, none, some, ◌++◌, arith, Text,
  Bytes, codes, text_eq, text_eq→eq, if◌then◌else◌, Bool-cases, inl, inr,
}
use app_flow.Js.Hex.{from_hex}
use app_flow.Merkle.Tree.{
  Tree, Trees, string, node, nil, cons, hash, join_hashes, get_elem?-children,
}
use app_flow.Sign.{LeafIndex}
use app_flow.Device.Levels.{IsDigest, AllDigests}
use app_flow.Device.Accepts.{IsStep, IsProved}

-- emptyTopLevelBranchSHA
abbrev pub empty_top_level_branch_sha : Text
empty_top_level_branch_sha =
    codes "94a4bf5f458f2def50f807bf419501bfd5e77a084c30592aa3803a522a3c272e"

-- The assignments to the first seven children.
abbrev pub empty_children : ℕ → Trees → Trees
empty_children zero ts = ts
empty_children (suc n) nil = cons (string (codes "Empty branch")) (empty_children n nil)
empty_children (suc n) (cons t ts) = cons (string (codes "Empty branch")) (empty_children n ts)

unfoldable pub cut_branch : Tree → Tree
cut_branch (string s) = string s
cut_branch (node h ts) =
    if text_eq h empty_top_level_branch_sha then node h (empty_children 7 ts) else node h ts

-- The loop over the seven children of the root.
abbrev pub cut_branches : Trees → Trees
cut_branches nil = nil
cut_branches (cons t ts) = cons (cut_branch t) (cut_branches ts)

abbrev pub cut : Tree → Tree
cut (string s) = string s
cut (node h ts) = node h (cut_branches ts)

hash-cut_branch : (t : Tree) → hash (cut_branch t) ≡ hash t
unfolding cut_branch
hash-cut_branch (string s) = refl
hash-cut_branch (node h ts) = ground arith

cut_branch_other : (t : Tree) → hash t ≢ empty_top_level_branch_sha → cut_branch t ≡ t
unfolding cut_branch
cut_branch_other (string s) other = refl
cut_branch_other (node h ts) other = elim (Bool-cases (text_eq h empty_top_level_branch_sha)) [
  | inl e ↦ absurd (other (text_eq→eq h empty_top_level_branch_sha e))
  | inr e ↦ ap (λ b. if b then node h (empty_children 7 ts) else node h ts) e
]

join_hashes-cut_branches : (ts : Trees) → join_hashes (cut_branches ts) ≡ join_hashes ts
join_hashes-cut_branches nil = refl
join_hashes-cut_branches (cons t ts) =
    ap₂ (λ a b. a ++ b) (hash-cut_branch t) (join_hashes-cut_branches ts)

cut_branches-AllDigests : (ts : Trees) → AllDigests ts → AllDigests (cut_branches ts)
cut_branches-AllDigests nil h = tt
cut_branches-AllDigests (cons t ts) (h, hs) =
    (subst IsDigest (sym (hash-cut_branch t)) h, cut_branches-AllDigests ts hs)

get_elem?-cut_branches :
    (ts : Trees) (i : ℕ) (c : Tree)
    → get_elem?-children ts i ≡ some c
    → get_elem?-children (cut_branches ts) i ≡ some (cut_branch c)
get_elem?-cut_branches nil i c e = absurd (ground arith)
get_elem?-cut_branches (cons t ts) zero c e =
    ap {A = Option Tree} (elim [ none ↦ some (cut_branch t) | some x ↦ some (cut_branch x) ]) e
get_elem?-cut_branches (cons t ts) (suc i) c e = get_elem?-cut_branches ts i c e

module _ (sha256 : Bytes → Option Bytes) where
  cut-IsStep :
      (t : Tree) (i : ℕ) (c : Tree)
      → IsStep sha256 t i c
      → hash c ≢ empty_top_level_branch_sha
      → IsStep sha256 (cut t) i c
  cut-IsStep (string s) i c h other = h
  cut-IsStep (node h ts) i c (digests, at, digest) other = (
    cut_branches-AllDigests ts digests,
    get_elem?-cut_branches ts i c at ∙ ap some (cut_branch_other c other),
    ap (λ s. sha256 (from_hex s)) (join_hashes-cut_branches ts) ∙ digest,
  )

  -- Cutting keeps the proof of a leaf unless the leaf's branch has the hash of an empty one.
  pub cut-IsProved :
      (t : Tree) (at : LeafIndex) (metadata : Text)
      → IsProved sha256 t at metadata
      → ((n0 : Tree) → IsStep sha256 t at.i0 n0 → hash n0 ≢ empty_top_level_branch_sha)
      → IsProved sha256 (cut t) at metadata
  cut-IsProved t at metadata (n0, n1, n2, n3, s0, s1, s2, s3, leaf) other =
      (n0, n1, n2, n3, cut-IsStep t at.i0 n0 s0 (other n0 s0), s1, s2, s3, leaf)
