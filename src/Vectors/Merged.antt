-- ===== src/Vectors/Merged.antt =====
-- `combineMerge` on lists of objects: the loop that changes its copy merges place by place.
use app_flow.Prelude.{
  ◌+◌, ◌≡◌, ◌≢◌, refl, ap, sym, ◌∙◌, true, Option, none, some, List, [], ◌∷◌, ◌++◌, map, arith,
  if◌then◌else◌, length, length-append, is_empty, get_elem?, set, All, append_assoc, append-nil,
  lt→ltb, le→ltb_false,
}
use app_flow.Vectors.Data.{Libraries}
use app_flow.Vectors.Merge.{Items, merge_item, merge_items, combine_merge}

module _ {A : Type 0} where
  get_elem?-middle :
      (front rest : List A) (x : A) → get_elem? (front ++ (x ∷ rest)) (length front) ≡ some x
  get_elem?-middle [] rest x = refl
  get_elem?-middle (y ∷ front) rest x = get_elem?-middle front rest x

  get_elem?-past : (front : List A) → get_elem? front (length front) ≡ none
  get_elem?-past [] = refl
  get_elem?-past (y ∷ front) = get_elem?-past front

  set-middle :
      (front rest : List A) (x y : A)
      → set (front ++ (x ∷ rest)) (length front) y ≡ front ++ (y ∷ rest)
  set-middle [] rest x y = refl
  set-middle (z ∷ front) rest x y = ap (λ l. z ∷ l) (set-middle front rest x y)

module _ (lib : Libraries) where
  open lib use {Value}

  -- The target's values merged with those of the source, and what is left of the longer list.
  abbrev pub merged : Items lib → Items lib → Items lib
  merged [] source = map lib.clone source
  merged (t ∷ target) [] = t ∷ target
  merged (t ∷ target) (s ∷ source) = lib.merge t s ∷ merged target source

  abbrev pub IsDefined : Option Value → Type 0
  IsDefined item = item ≢ none

  abbrev pub IsMergeable : Option Value → Type 0
  IsMergeable item = lib.is_mergeable_object item ≡ true

  merge_item_past :
      (target front : Items lib) (item : Option Value)
      → merge_item lib target front (length front) item ≡ front ++ (lib.clone item ∷ [])
  unfolding merge_item
  merge_item_past target front item =
      rw (get_elem?-past front, le→ltb_false (length front) (length front) (omega arith)) refl

  merge_item_middle :
      (before front rest : Items lib) (t item : Option Value)
      → length before ≡ length front
      → IsDefined t
      → IsMergeable item
      → merge_item lib (before ++ (t ∷ rest)) (front ++ (t ∷ rest)) (length front) item
        ≡ front ++ (lib.merge t item ∷ rest)
  unfolding merge_item
  merge_item_middle before front rest none item size h m = absurd (h refl)
  merge_item_middle before front rest (some v) item size h m =
      let here = get_elem?-middle front rest (some v) in
      let there =
        ap (get_elem? (before ++ (some v ∷ rest))) (sym size)
        ∙ get_elem?-middle before rest (some v) in
      let inside =
        lt→ltb (length front) (length (front ++ (some v ∷ rest)))
          (omega (arith, length-append front (some v ∷ rest))) in
      rw (here, m, there, inside) (set-middle front rest (some v) (lib.merge (some v) item))

  merge_items-past :
      (target front : Items lib) (source : Items lib)
      → merge_items lib target front (length front) source ≡ front ++ map lib.clone source
  unfolding merge_items
  merge_items-past target front [] = sym (append-nil front)
  merge_items-past target front (item ∷ source) =
      let longer = front ++ (lib.clone item ∷ []) in
      let size : length front + 1 ≡ length longer =
        omega (arith, length-append front (lib.clone item ∷ [])) in
      ap (λ d. merge_items lib target d (length front + 1) source)
        (merge_item_past target front item)
      ∙ ap (λ n. merge_items lib target longer n source) size
      ∙ merge_items-past target longer source
      ∙ append_assoc front (lib.clone item ∷ []) (map lib.clone source)

  merge_items-merged :
      (rest before front source : Items lib)
      → length before ≡ length front
      → All IsDefined rest
      → All IsMergeable source
      → merge_items lib (before ++ rest) (front ++ rest) (length front) source
        ≡ front ++ merged rest source
  unfolding merge_items
  merge_items-merged [] before front source size h m =
      ap (λ d. merge_items lib (before ++ []) d (length front) source) (append-nil front)
      ∙ merge_items-past (before ++ []) front source
  merge_items-merged (t ∷ rest) before front [] size h m = refl
  merge_items-merged (t ∷ rest) before front (item ∷ source) size (h, hs) (m, ms) =
      let next = lib.merge t item in
      let before' = before ++ (t ∷ []) in
      let front' = front ++ (next ∷ []) in
      let sizes : length before' ≡ length front' =
        omega (arith, length-append before (t ∷ []), length-append front (next ∷ []), size) in
      let index : length front + 1 ≡ length front' =
        omega (arith, length-append front (next ∷ [])) in
      ap (λ d. merge_items lib (before ++ (t ∷ rest)) d (length front + 1) source)
        (merge_item_middle before front rest t item size h m
          ∙ sym (append_assoc front (next ∷ []) rest))
      ∙ ap (λ n. merge_items lib (before ++ (t ∷ rest)) (front' ++ rest) n source) index
      ∙ ap (λ b. merge_items lib b (front' ++ rest) (length front') source)
          (sym (append_assoc before (t ∷ []) rest))
      ∙ merge_items-merged rest before' front' source sizes hs ms
      ∙ append_assoc front (next ∷ []) (merged rest source)

  -- On a target without undefined values and a source of objects, `combineMerge` gives an empty list
  -- for an empty source, and else merges the two lists place by place, keeps what the target has more,
  -- and appends clones of what the source has more.
  pub combine_merge-merged :
      (target source : Items lib)
      → All IsDefined target
      → All IsMergeable source
      → combine_merge lib target source ≡ (if is_empty source then [] else merged target source)
  unfolding combine_merge
  combine_merge-merged target [] h m = refl
  combine_merge-merged target (item ∷ source) h m =
      merge_items-merged target [] [] (item ∷ source) refl h m
