-- ===== src/Path/Layout.antt =====
-- What `serializePath` writes for the text of a path.
use app_flow.Prelude.{
  ℕ, ◌+◌, ◌-◌, ◌*◌, ◌^◌, ◌≤◌, ◌<◌, ◌≡◌, refl, ap, ◌∙◌, append-nil, List, [], ◌∷◌, ◌++◌, map, arith,
  Text, Bytes, All, replicate, ok,
}
use app_flow.Js.Number.{of_ℕ}
use app_flow.Js.Strings.{Lacks, split, split_at, split_whole, starts_with}
use app_flow.Js.Buffer.{le_bytes, store, write_uint_le_whole}
use app_flow.Path.{text, write_children, serialize_path}
use app_flow.Path.Items.{
  Item, IsItem, item_text, item_value, child_value-item_text, item_text-Lacks,
}

abbrev pub path_tail : List Item → Text
path_tail [] = []
path_tail (item ∷ items) = b'/' ∷ (item_text item ++ path_tail items)

-- `m/44'/539'/…`
abbrev pub path_text : List Item → Text
path_text items = b'm' ∷ path_tail items

-- The bytes of the items, four for each, and of the options.
abbrev pub path_bytes : List Item → Bytes
path_bytes [] = []
path_bytes (item ∷ items) = le_bytes 4 (item_value item) ++ path_bytes items

split-path_tail :
    (p : Text) (items : List Item)
    → Lacks b'/' p
    → split b'/' (p ++ path_tail items) ≡ p ∷ map item_text items
split-path_tail p [] h = rw append-nil (split_whole b'/' p h)
split-path_tail p (item ∷ items) h =
    split_at b'/' p _ h
    ∙ ap (λ t. p ∷ t) (split-path_tail (item_text item) items (item_text-Lacks item))

split-path_text :
    (items : List Item) → split b'/' (path_text items) ≡ (b'm' ∷ []) ∷ map item_text items
split-path_text items = split-path_tail (b'm' ∷ []) items (omega arith)

item_value-lt : (item : Item) → IsItem item → item_value item ≤ 256 ^ 4 - 1
item_value-lt item h = ground arith

abbrev store_items : List Item → ℕ → Bytes → Bytes
store_items [] i buf = buf
store_items (item ∷ items) i buf =
    store_items items (i + 1) (store buf (4 * (i - 1)) (le_bytes 4 (item_value item)))

write_children-items :
    (items : List Item) (i : ℕ) (buf : Bytes)
    → All IsItem items
    → write_children (map item_text items) i buf ≡ ok (store_items items i buf)
unfolding write_children
write_children-items [] i buf _ = refl
write_children-items (item ∷ items) i buf (h, hs) =
    rw
      (
        child_value-item_text item h,
        write_uint_le_whole 4 buf (item_value item) (4 * (i - 1)) (item_value-lt item h),
      )
      (write_children-items items (i + 1) _ hs)

-- The text of five items is written as five little-endian words, and the options follow in two bytes.
pub serialize_path-path_text :
    (a b c d e : Item) (options : ℕ)
    → let items = a ∷ b ∷ c ∷ d ∷ e ∷ [] in
      All IsItem items
      → options < 2 ^ 16
      → serialize_path (text (path_text items)) (of_ℕ options)
        ≡ ok (path_bytes items ++ le_bytes 2 options)
unfolding serialize_path starts_with
serialize_path-path_text a b c d e options hs h =
    rw
      (
        split-path_text (a ∷ b ∷ c ∷ d ∷ e ∷ []),
        write_uint_le_whole 2 (replicate 22 0) options 20 (omega arith),
      )
      (write_children-items (a ∷ b ∷ c ∷ d ∷ e ∷ []) 1 _ hs)
