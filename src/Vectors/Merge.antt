-- ===== src/Vectors/Merge.antt =====
-- transaction_metadata/tests/index.js, `combineMerge`: how two lists of arguments are merged.
use app_flow.Prelude.{
  ℕ, ◌+◌, Bool, true, false, Option, none, some, List, [], ◌∷◌, ◌++◌, ltb, if◌then◌else◌, length,
  is_empty, get_elem?, set,
}
use app_flow.Vectors.Data.{Libraries}

module _ (lib : Libraries) where
  open lib use {Value}

  abbrev pub Items : Type 0
  Items = List (Option Value)

  abbrev pub is_undefined : Option (Option Value) → Bool
  is_undefined (some (some v)) = false
  is_undefined _ = true

  -- `destination[index] = item`; an index that is no element is one past the end.
  abbrev pub assign : Items → ℕ → Option Value → Items
  assign items index item =
      if ltb index (length items) then set items index item else items ++ (item ∷ [])

  -- `target.indexOf(item) === -1`
  abbrev pub is_absent : Items → Option Value → Bool
  is_absent [] item = true
  is_absent (t ∷ ts) item = if lib.is_same t item then false else is_absent ts item

  abbrev pub value_or_undefined : Option (Option Value) → Option Value
  value_or_undefined none = none
  value_or_undefined (some item) = item

  -- One round of the loop of `combineMerge`.
  unfoldable pub merge_item : Items → Items → ℕ → Option Value → Items
  merge_item target destination index item =
      if is_undefined (get_elem? destination index)
      then assign destination index (lib.clone item)
      else if lib.is_mergeable_object item
      then assign destination index (lib.merge (value_or_undefined (get_elem? target index)) item)
      else if is_absent target item
      then destination ++ (item ∷ [])
      else destination

  unfoldable pub merge_items : Items → Items → ℕ → Items → Items
  merge_items target destination index [] = destination
  merge_items target destination index (item ∷ source) =
      merge_items target (merge_item target destination index item) (index + 1) source

  -- An empty list overwrites the target.
  unfoldable pub combine_merge : Items → Items → Items
  combine_merge target source =
      if is_empty source then source else merge_items target target 0 source
