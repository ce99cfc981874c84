-- ===== src/Path/Print.antt =====
-- `printBIP44Path`, and how it fits `serializePath`.
use app_flow.Prelude.{
  ℕ, ◌+◌, ◌%◌, ◌^◌, ◌<◌, ◌≡◌, ◌⊎◌, refl, sym, ap, ap₂, ◌∙◌, true, ◌&&◌, List, [], ◌∷◌, ◌++◌, arith,
  Text, Bytes, All, ok, ltb, leb, if◌then◌else◌, map, ok-injective,
}
use app_flow.Js.Number.{of_ℕ}
use app_flow.Js.Buffer.{le_bytes, from_le-le_bytes, read_uint32_le, slice}
use app_flow.Path.{
  text, child_value, serialize_path, print_item, print_items, print_bip44_path, hardened,
}
use app_flow.Path.Items.{Item, IsItem, item_text, item_value, child_value-item_text}
use app_flow.Path.Layout.{path_tail, path_text, path_bytes, serialize_path-path_text}

-- What `printBIP44Item` takes a word for: its index, and hardened from 2 ^ 27 on.
abbrev pub shown_item : ℕ → Item
shown_item v = record { index = v % 2 ^ 31; is_hardened = leb 0x800_0000 v }

-- The word that the print of `v` is read as.
abbrev pub reread : ℕ → ℕ
reread v = if leb 0x800_0000 v && ltb v hardened then v + hardened else v

abbrev pub IsWord : ℕ → Type 0
IsWord v = v < 2 ^ 32

abbrev pub word_bytes : List ℕ → Bytes
word_bytes [] = []
word_bytes (v ∷ vs) = le_bytes 4 v ++ word_bytes vs

item_value-shown_item : (v : ℕ) → IsWord v → item_value (shown_item v) ≡ reread v
item_value-shown_item v h = ground arith

print_item-shown_item : (v : ℕ) → print_item v ≡ item_text (shown_item v)
unfolding print_item
print_item-shown_item v = refl

-- Reading back the print of a word gives the word, but for one from 2 ^ 27 up to 2 ^ 31: it is
-- printed as if it were hardened, and comes back with the top bit set.
pub child_value-print_item : (v : ℕ) → IsWord v → child_value (print_item v) ≡ ok (of_ℕ (reread v))
child_value-print_item v h =
    ap child_value (print_item-shown_item v)
    ∙ child_value-item_text (shown_item v) (omega arith)
    ∙ ap (λ k. ok (of_ℕ k)) (item_value-shown_item v h)

print_items-shown_item : (vs : List ℕ) → print_items vs ≡ path_tail (map shown_item vs)
unfolding print_item
print_items-shown_item [] = refl
print_items-shown_item (v ∷ vs) = ap (λ t. b'/' ∷ (print_item v ++ t)) (print_items-shown_item vs)

pub print_words :
    (a b c d e : ℕ)
    → let vs = a ∷ b ∷ c ∷ d ∷ e ∷ [] in
      All IsWord vs → print_bip44_path (word_bytes vs) ≡ ok (path_text (map shown_item vs))
unfolding print_bip44_path read_uint32_le
print_words a b c d e (ha, (hb, (hc, (hd, (he, _))))) =
    rw
      (
        from_le-le_bytes a ha,
        from_le-le_bytes b hb,
        from_le-le_bytes c hc,
        from_le-le_bytes d hd,
        from_le-le_bytes e he,
      )
      (ap (λ t. ok (b'm' ∷ t)) (print_items-shown_item (a ∷ b ∷ c ∷ d ∷ e ∷ [])))

path_bytes-shown_item :
    (vs : List ℕ) → All IsWord vs → path_bytes (map shown_item vs) ≡ word_bytes (map reread vs)
path_bytes-shown_item [] _ = refl
path_bytes-shown_item (v ∷ vs) (h, hs) =
    ap₂ (λ w bs. le_bytes 4 w ++ bs) (item_value-shown_item v h) (path_bytes-shown_item vs hs)

shown_items-IsItem : (vs : List ℕ) → All IsItem (map shown_item vs)
shown_items-IsItem [] = tt
shown_items-IsItem (v ∷ vs) = (omega arith, shown_items-IsItem vs)

-- Serializing the print of five words gives them back, each as its print is read, with the options
-- behind them.
pub serialize_path-print_bip44_path :
    (a b c d e options : ℕ) (path : Text)
    → let vs = a ∷ b ∷ c ∷ d ∷ e ∷ [] in
      All IsWord vs
      → options < 2 ^ 16
      → print_bip44_path (word_bytes vs) ≡ ok path
      → serialize_path (text path) (of_ℕ options)
        ≡ ok (word_bytes (map reread vs) ++ le_bytes 2 options)
serialize_path-print_bip44_path a b c d e options path h ho printed =
    let vs = a ∷ b ∷ c ∷ d ∷ e ∷ [] in
    rw (ok-injective (sym printed ∙ print_words a b c d e h)) (
      serialize_path-path_text _ _ _ _ _ options (shown_items-IsItem vs) ho
      ∙ ap (λ bs. ok (bs ++ le_bytes 2 options)) (path_bytes-shown_item vs h))

-- An item that the print shows as it is.
abbrev pub IsPrintable : Item → Type 0
IsPrintable item = IsItem item × ((item.is_hardened ≡ true) ⊎ (item.index < 0x800_0000))

shown_item-item_value : (item : Item) → IsPrintable item → shown_item (item_value item) ≡ item
shown_item-item_value item h = ground arith

path_tail-shown_item :
    (items : List Item)
    → All IsPrintable items
    → path_tail (map shown_item (map item_value items)) ≡ path_tail items
path_tail-shown_item [] _ = refl
path_tail-shown_item (item ∷ items) (h, hs) =
    ap₂ (λ i t. b'/' ∷ (item_text i ++ t)) (shown_item-item_value item h)
      (path_tail-shown_item items hs)

pub IsPrintable-IsItem : (items : List Item) → All IsPrintable items → All IsItem items
IsPrintable-IsItem [] _ = tt
IsPrintable-IsItem (item ∷ items) (h, hs) = (h.0, IsPrintable-IsItem items hs)

item_value-IsWord : (items : List Item) → All IsItem items → All IsWord (map item_value items)
item_value-IsWord [] _ = tt
item_value-IsWord (item ∷ items) (h, hs) = (ground arith, item_value-IsWord items hs)

-- The print of the bytes of printable items is their text.
pub print_bip44_path-path_bytes :
    (a b c d e : Item)
    → let items = a ∷ b ∷ c ∷ d ∷ e ∷ [] in
      All IsPrintable items → print_bip44_path (path_bytes items) ≡ ok (path_text items)
print_bip44_path-path_bytes a b c d e h =
    let items = a ∷ b ∷ c ∷ d ∷ e ∷ [] in
    print_words _ _ _ _ _ (item_value-IsWord items (IsPrintable-IsItem items h))
    ∙ ap (λ t. ok (b'm' ∷ t)) (path_tail-shown_item items h)

-- The print of the first 20 bytes that a path is written as is the path, if each index that is not
-- hardened is below 2 ^ 27.
pub print_bip44_path-serialize_path :
    (a b c d e : Item) (options : ℕ) (buf : Bytes)
    → let items = a ∷ b ∷ c ∷ d ∷ e ∷ [] in
      All IsPrintable items
      → options < 2 ^ 16
      → serialize_path (text (path_text items)) (of_ℕ options) ≡ ok buf
      → print_bip44_path (slice buf 0 20) ≡ ok (path_text items)
print_bip44_path-serialize_path a b c d e options buf h ho done =
    let items = a ∷ b ∷ c ∷ d ∷ e ∷ [] in
    let valid = IsPrintable-IsItem items h in
    rw (ok-injective (sym done ∙ serialize_path-path_text a b c d e options valid ho))
      (print_bip44_path-path_bytes a b c d e h)
