-- ===== src/Js/Strings.antt =====
-- `split`, `startsWith`, `endsWith` and `slice(0, -1)` of strings.
use app_flow.Prelude.{
  ℕ, ◌≡◌, refl, ap, ◌≢◌, Bool, true, false, List, [], ◌∷◌, ◌++◌, arith, ◌==◌, if◌then◌else◌, Text,
  All,
}

-- The first part of a split gets one more character.
extend_first : ℕ → List Text → List Text
extend_first c [] = (c ∷ []) ∷ []
extend_first c (p ∷ ps) = (c ∷ p) ∷ ps

-- `s.split(sep)` for a separator of one character.
unfoldable pub split : ℕ → Text → List Text
unfolding extend_first
split sep [] = [] ∷ []
split sep (c ∷ s) = let rest = split sep s in if c == sep then [] ∷ rest else extend_first c rest

unfoldable pub starts_with : ℕ → Text → Bool
starts_with c [] = false
starts_with c (d ∷ s) = c == d

unfoldable pub ends_with : ℕ → Text → Bool
ends_with c [] = false
ends_with c (d ∷ []) = c == d
ends_with c (d ∷ e ∷ s) = ends_with c (e ∷ s)

-- `s.slice(0, -1)`
unfoldable pub drop_last : Text → Text
drop_last [] = []
drop_last (d ∷ []) = []
drop_last (d ∷ e ∷ s) = d ∷ drop_last (e ∷ s)

abbrev pub Lacks : ℕ → Text → Type 0
Lacks sep = All (λ c. c ≢ sep)

pub split_at : (sep : ℕ) (p s : Text) → Lacks sep p → split sep (p ++ sep ∷ s) ≡ p ∷ split sep s
unfolding split extend_first
split_at sep [] s _ = ground arith
split_at sep (c ∷ p) s (hc, hp) = ground (arith, split_at sep p s hp)

pub split_whole : (sep : ℕ) (p : Text) → Lacks sep p → split sep p ≡ p ∷ []
unfolding split extend_first
split_whole sep [] _ = refl
split_whole sep (c ∷ p) (hc, hp) = ground (arith, split_whole sep p hp)

pub ends_with-append : (c : ℕ) (s : Text) → ends_with c (s ++ c ∷ []) ≡ true
unfolding ends_with
ends_with-append c [] = ground arith
ends_with-append c (d ∷ []) = ground arith
ends_with-append c (d ∷ e ∷ s) = ends_with-append c (e ∷ s)

pub drop_last-append : (c : ℕ) (s : Text) → drop_last (s ++ c ∷ []) ≡ s
unfolding drop_last
drop_last-append c [] = refl
drop_last-append c (d ∷ []) = refl
drop_last-append c (d ∷ e ∷ s) = ap (λ t. d ∷ t) (drop_last-append c (e ∷ s))

pub ends_with-Lacks : (c : ℕ) (s : Text) → Lacks c s → ends_with c s ≡ false
unfolding ends_with
ends_with-Lacks c [] _ = refl
ends_with-Lacks c (d ∷ []) (h, _) = ground arith
ends_with-Lacks c (d ∷ e ∷ s) (_, h) = ends_with-Lacks c (e ∷ s) h
