-- ===== src/Sign/Entries.antt =====
-- What `merkleIndex[key]` is.
use app_flow.Prelude.{◌≡◌, ap}
use app_flow.Sign.{LeafIndex, Entry, leaf, inherited, undefined}

pub leaf-injective : {a b : LeafIndex} → Path Entry (leaf a) (leaf b) → a ≡ b
leaf-injective {a} e = ap {A = Entry} (elim [ leaf v ↦ v | inherited ↦ a | undefined ↦ a ]) e
