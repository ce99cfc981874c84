-- ===== src/Merkle/Tree.antt =====
-- The tree as a JavaScript value: an element of a `children` array is a string or an inner object.
use app_flow.Prelude.{ℕ, zero, suc, Option, none, some, [], ◌++◌, Text}

mutual
  pub data Tree : Type 0 where
    string : Text → Tree
    node : Text → Trees → Tree

  pub data Trees : Type 0 where
    nil : Trees
    cons : Tree → Trees → Trees

abbrev pub get_elem?-children : Trees → ℕ → Option Tree
get_elem?-children nil i = none
get_elem?-children (cons t ts) zero = some t
get_elem?-children (cons t ts) (suc i) = get_elem?-children ts i

-- `t.children`: a string has none.
abbrev pub children : Tree → Option Trees
children (string s) = none
children (node h ts) = some ts

-- `t.children[i]`; `none` stands for a value on which the next access throws.
abbrev pub child : Tree → ℕ → Option Tree
child (string s) i = none
child (node h ts) i = get_elem?-children ts i

-- `ch.hash`, which `join` prints as the empty string where it is undefined.
abbrev pub hash : Tree → Text
hash (string s) = []
hash (node h ts) = h

-- `children.map((ch) => ch.hash).join('')`
abbrev pub join_hashes : Trees → Text
join_hashes nil = []
join_hashes (cons t ts) = hash t ++ join_hashes ts
