-- ===== src/Device/Honest.antt =====
-- What a proof that ends in a tree's hash shows: its metadata is a leaf's, or bytes of the proof
-- have the hash of other bytes, which a node of the tree is made of.
use app_flow.Prelude.{
  ℕ, zero, suc, ◌*◌, ◌<◌, ◌≡◌, ◌≢◌, refl, ap, sym, subst, ◌∙◌, ◌⊎◌, inl, inr, Option, some, arith,
  Text, Bytes, text_eq, text_eq→eq, text_eq_refl, length, take, drop, take-append_eq,
  drop-append_eq, Bool-cases, length-append,
}
use app_flow.Js.Hex.{from_hex}
use app_flow.Merkle.Tree.{Tree, Trees, string, node, nil, cons, hash}
use app_flow.Device.Hashes.{drop-next}
use app_flow.Device.Levels.{AllDigests, level_bytes, level_bytes-cons}
use app_flow.Device.Chain.{SentChain}

-- Two lists of bytes with one hash, each of a kind.
abbrev pub Collision : (Bytes → Option Bytes) → (Bytes → Type 0) → (Bytes → Type 0) → Type 0
Collision sha256 Here There =
    (a b h : Bytes) × Here a × There b × (a ≢ b) × (sha256 a ≡ some h) × (sha256 b ≡ some h)

compare_hashed :
    (sha256 : Bytes → Option Bytes) (Here There : Bytes → Type 0) (a b h : Bytes)
    → Here a
    → There b
    → sha256 a ≡ some h
    → sha256 b ≡ some h
    → Collision sha256 Here There ⊎ (a ≡ b)
compare_hashed sha256 Here There a b h here there ha hb = elim (Bool-cases (text_eq a b)) [
  | inl same ↦ inr (text_eq→eq a b same)
  | inr other ↦
      inl (a, b, h, here, there, (λ e. cc (ap (text_eq a) e, text_eq_refl a, other)), ha, hb)
]

-- The bytes that the hash of a node is made of: a leaf's metadata, or the hashes of its children.
abbrev pub hashed_bytes : Trees → Bytes
hashed_bytes (cons (string metadata) ts) = from_hex metadata
hashed_bytes ts = level_bytes ts

-- The bytes are those that the hash of a node of the tree is made of.
mutual
  pub IsHashedIn : Tree → Bytes → Type 0
  IsHashedIn (string s) bytes = ⊥
  IsHashedIn (node h ts) bytes = (bytes ≡ hashed_bytes ts) ⊎ IsHashedInside ts bytes

  IsHashedInside : Trees → Bytes → Type 0
  IsHashedInside nil bytes = ⊥
  IsHashedInside (cons t ts) bytes = IsHashedIn t bytes ⊎ IsHashedInside ts bytes

abbrev pub AllTrees : (Tree → Type 0) → Trees → Type 0
AllTrees P nil = Unit
AllTrees P (cons t ts) = P t × AllTrees P ts

-- Each hash of a tree of a depth is right, and what its leaves hold is as said.
abbrev pub IsWhole : (Bytes → Option Bytes) → (Text → Type 0) → ℕ → Tree → Type 0
IsWhole sha256 P n (string s) = ⊥
IsWhole sha256 P zero (node h nil) = ⊥
IsWhole sha256 P zero (node h (cons (node d us) ts)) = ⊥
IsWhole sha256 P zero (node h (cons (string m) ts)) =
    P m × (sha256 (from_hex m) ≡ some (from_hex h))
IsWhole sha256 P (suc n) (node h ts) =
    AllDigests ts × AllTrees (IsWhole sha256 P n) ts × (sha256 (level_bytes ts) ≡ some (from_hex h))

module _ (P : Tree → Type 0) where
  -- A hash in the packet of a level is that of one of its nodes.
  contained :
      (ts : Trees) (i : ℕ) (below : Bytes)
      → AllDigests ts
      → AllTrees P ts
      → 32 * i < length (level_bytes ts)
      → take 32 (drop (32 * i) (level_bytes ts)) ≡ below
      → (c : Tree) × P c × (from_hex (hash c) ≡ below)
  unfolding from_hex
  contained nil i below ds ps small e = absurd (omega arith)
  contained (cons t ts) zero below (d, ds) (p, ps) small e = (
    t,
    p,
    sym (take-append_eq 32 (from_hex (hash t)) (level_bytes ts) d.2)
        ∙ ap (take 32) (sym (level_bytes-cons t ts d))
        ∙ e,
  )
  contained (cons t ts) (suc i) below (d, ds) (p, ps) small e =
      let behind =
        ap (drop 32) (level_bytes-cons t ts d)
        ∙ drop-append_eq 32 (from_hex (hash t)) (level_bytes ts) d.2 in
      let size =
        ap length (level_bytes-cons t ts d) ∙ length-append (from_hex (hash t)) (level_bytes ts) in
      contained ts i below ds ps (omega (arith, size, d.2)) (
        ap (λ bs. take 32 (drop (32 * i) bs)) (sym behind)
        ∙ ap (take 32) (sym (drop-next i (level_bytes (cons t ts))))
        ∙ e)

-- A node, with what it is known to be a child of.
abbrev IsInside : Trees → (Tree → Type 0) → Tree → Type 0
IsInside top P c = P c × ((bytes : Bytes) → IsHashedIn c bytes → IsHashedInside top bytes)

AllTrees-IsInside :
    (P : Tree → Type 0) (top ts : Trees)
    → ((bytes : Bytes) → IsHashedInside ts bytes → IsHashedInside top bytes)
    → AllTrees P ts
    → AllTrees (IsInside top P) ts
unfolding IsHashedInside
AllTrees-IsInside P top nil within h = tt
AllTrees-IsInside P top (cons t ts) within (p, ps) = (
  (p, λ bytes h. within bytes (inl h)),
  AllTrees-IsInside P top ts (λ bytes h. within bytes (inr h)) ps,
)

hashed_bytes-level_bytes : (ts : Trees) → AllDigests ts → hashed_bytes ts ≡ level_bytes ts
unfolding from_hex
hashed_bytes-level_bytes nil digests = refl
hashed_bytes-level_bytes (cons (string s) ts) (d, ds) = absurd (omega (arith, d.2))
hashed_bytes-level_bytes (cons (node h us) ts) digests = refl

module _ (sha256 : Bytes → Option Bytes) (P : Text → Type 0) (Sent : Bytes → Type 0) where
  widen :
      (t : Tree) (h : Text) (ts : Trees)
      → ((bytes : Bytes) → IsHashedIn t bytes → IsHashedInside ts bytes)
      → {A : Type 0} → Collision sha256 (IsHashedIn t) Sent ⊎ A
      → Collision sha256 (IsHashedIn (node h ts)) Sent ⊎ A
  unfolding IsHashedIn
  widen t h ts inside (inl (a, b, d, here, there, other, ha, hb)) =
      inl (a, b, d, inr (inside a here), there, other, ha, hb)
  widen t h ts inside (inr x) = inr x

  pub IsWhole-SentChain :
      (n : ℕ) (t : Tree) (metadata : Bytes)
      → IsWhole sha256 P n t
      → SentChain sha256 Sent metadata (suc n) (from_hex (hash t))
      → Collision sha256 (IsHashedIn t) Sent ⊎ ((m : Text) × P m × (from_hex m ≡ metadata))
  unfolding IsHashedIn
  IsWhole-SentChain n (string s) metadata whole chain = absurd whole
  IsWhole-SentChain zero (node h nil) metadata whole chain = absurd whole
  IsWhole-SentChain zero (node h (cons (node d us) ts)) metadata whole chain = absurd whole
  IsWhole-SentChain zero (node h (cons (string m) ts)) metadata (p, e) (sent, f) =
      elim (compare_hashed sha256 (IsHashedIn (node h (cons (string m) ts))) Sent (from_hex m)
        metadata (from_hex h) (inl refl) sent e f) [
          | inl collision ↦ inl collision
          | inr same ↦ inr (m, p, same)
        ]
  IsWhole-SentChain (suc n) (node h ts) metadata (digests, inner, e)
        (below, hashes, chain, (i, small, found), sent, f) =
      elim (compare_hashed sha256 (IsHashedIn (node h ts)) Sent (level_bytes ts) hashes (from_hex h)
        (inl (sym (hashed_bytes-level_bytes ts digests))) sent e f) [
          | inl collision ↦ inl collision
          | inr same ↦
              let (c, (whole, inside), is_below) =
                contained (IsInside ts (IsWhole sha256 P n)) ts i below digests
                  (AllTrees-IsInside (IsWhole sha256 P n) ts ts (λ bytes h. h) inner)
                  (omega (arith, ap length same))
                  (ap (λ bs. take 32 (drop (32 * i) bs)) same ∙ found) in
              widen c h ts inside (
                IsWhole-SentChain n c metadata whole
                  (subst (SentChain sha256 Sent metadata (suc n)) (sym is_below) chain))
        ]
