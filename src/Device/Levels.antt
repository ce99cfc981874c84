-- ===== src/Device/Levels.antt =====
-- The bytes of one level's packet: the children's hashes, one after the other.
use app_flow.Prelude.{
  Bool, true, ◌&&◌, ◌==◌, ==_iff, text_eq, text_eq→eq, and-true, ℕ, zero, suc, ◌+◌, ◌*◌, ◌%◌, ◌<◌,
  ◌≡◌, refl, sym, ap, ◌∙◌, Option, none, some, ◌++◌, arith, Text, Bytes, All, IsByte, length,
  length-append, take, drop, take-append_eq, drop-append_eq,
}
use app_flow.Js.Hex.{to_hex, from_hex, from_hex-to_hex, from_hex-All-IsByte}
use app_flow.Merkle.Tree.{Tree, Trees, nil, cons, hash, join_hashes, get_elem?-children}
use app_flow.Device.Hashes.{drop-next}

-- The text is the hexadecimal print of 32 bytes.
abbrev pub IsDigest : Text → Type 0
IsDigest t = (to_hex (from_hex t) ≡ t) × All IsByte (from_hex t) × (length (from_hex t) ≡ 32)

abbrev pub AllDigests : Trees → Type 0
AllDigests nil = Unit
AllDigests (cons t ts) = IsDigest (hash t) × AllDigests ts

from_hex-digest : (t rest : Text) → IsDigest t → from_hex (t ++ rest) ≡ from_hex t ++ from_hex rest
from_hex-digest t rest (printed, bytes, _) =
    ap (λ u. from_hex (u ++ rest)) (sym printed) ∙ from_hex-to_hex (from_hex t) rest bytes

-- The bytes of a level's packet.
abbrev pub level_bytes : Trees → Bytes
level_bytes ts = from_hex (join_hashes ts)

pub level_bytes-cons :
    (t : Tree) (ts : Trees)
    → IsDigest (hash t)
    → level_bytes (cons t ts) ≡ from_hex (hash t) ++ level_bytes ts
level_bytes-cons t ts h = from_hex-digest (hash t) (join_hashes ts) h

length-level_bytes :
    (t : Tree) (ts : Trees)
    → IsDigest (hash t)
    → length (level_bytes (cons t ts)) ≡ 32 + length (level_bytes ts)
length-level_bytes t ts h =
    ap length (level_bytes-cons t ts h)
    ∙ length-append (from_hex (hash t)) (level_bytes ts)
    ∙ ap (λ n. n + length (level_bytes ts)) h.2

pub level_bytes-whole : (ts : Trees) → AllDigests ts → length (level_bytes ts) % 32 ≡ 0
level_bytes-whole nil h = unfold from_hex in refl
level_bytes-whole (cons t ts) (h, hs) =
    let more = level_bytes-whole ts hs in
    let n = length-level_bytes t ts h in omega (arith, more, n)

pub level_bytes-Contains :
    (ts : Trees) (i : ℕ) (c : Tree)
    → AllDigests ts
    → get_elem?-children ts i ≡ some c
    → (32 * i < length (level_bytes ts))
      × (take 32 (drop (32 * i) (level_bytes ts)) ≡ from_hex (hash c))
level_bytes-Contains nil i c hs e = absurd (ground arith)
level_bytes-Contains (cons t ts) zero c (h, hs) e =
    let same : t ≡ c = ap {A = Option Tree} (elim [ none ↦ t | some x ↦ x ]) e in
    let n = length-level_bytes t ts h in
    (
      omega (arith, n),
      ap (take 32) (level_bytes-cons t ts h)
          ∙ take-append_eq 32 (from_hex (hash t)) (level_bytes ts) h.2
          ∙ ap (λ x. from_hex (hash x)) same,
    )
level_bytes-Contains (cons t ts) (suc i) c (h, hs) e =
    let (below, found) = level_bytes-Contains ts i c hs e in
    let n = length-level_bytes t ts h in
    (
      omega (arith, n, below),
      ap (take 32) (
            drop-next i (level_bytes (cons t ts))
            ∙ ap (λ bs. drop (32 * i) (drop 32 bs)) (level_bytes-cons t ts h)
            ∙ ap (drop (32 * i)) (drop-append_eq 32 (from_hex (hash t)) (level_bytes ts) h.2))
          ∙ found,
    )

-- The test of the hashes of a list of children.
abbrev pub all_digests : Trees → Bool
all_digests nil = true
all_digests (cons t ts) =
    text_eq (to_hex (from_hex (hash t))) (hash t)
    && length (from_hex (hash t)) == 32
    && all_digests ts

pub all_digests-AllDigests : (ts : Trees) → all_digests ts ≡ true → AllDigests ts
all_digests-AllDigests nil h = tt
all_digests-AllDigests (cons t ts) h =
    let (front, rest) = and-true _ (all_digests ts) h in
    let (printed, size) = and-true _ (length (from_hex (hash t)) == 32) front in
    (
      (
        text_eq→eq _ _ printed,
        from_hex-All-IsByte (hash t),
        (==_iff (length (from_hex (hash t))) 32).0 size,
      ),
      all_digests-AllDigests ts rest,
    )
