-- ===== src/Shipped/Nodes.antt =====
-- Shapes of js/src/txMerkleTree.js that recur.
use app_flow.Prelude.{Text}
use app_flow.Merkle.Tree.{Tree, Trees, string, node, nil, cons}

abbrev pub seven : Tree → Tree → Tree → Tree → Tree → Tree → Tree → Trees
seven a b c d e f g = cons a (cons b (cons c (cons d (cons e (cons f (cons g nil))))))

-- The hash of a leaf, and its metadata in hexadecimal.
abbrev pub leaf : Text → Text → Tree
leaf hash metadata = node hash (cons (string metadata) nil)
