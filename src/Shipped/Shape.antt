-- ===== src/Shipped/Shape.antt =====
-- js/src/txMerkleTree.js, the tree from its root to the nodes that hold leaves.
use app_flow.Shipped.Nodes
use app_flow.Shipped.Branch0
use app_flow.Shipped.Branch1
use app_flow.Shipped.Branch2
use app_flow.Shipped.Branch3
use app_flow.Prelude.{codes}
use app_flow.Merkle.Tree.{Tree, string, node}

abbrev empty_leaf : Tree
empty_leaf =
    Nodes.leaf (codes "e3b0c44298fc1c149afbf4c8996fb92427ae41e4649b934ca495991b7852b855") (codes "")

-- Each node with no metadata below it has the same contents.
abbrev branch_0_0_4 : Tree
branch_0_0_4 =
    node (codes "63981575be94aaa4f14daa9f27c6c2fd72b46de3994ed71abaec45aa4b40615a")
      (Nodes.seven empty_leaf empty_leaf empty_leaf empty_leaf empty_leaf empty_leaf empty_leaf)

abbrev branch_0_0_5 : Tree
branch_0_0_5 = branch_0_0_4

abbrev branch_0_0_6 : Tree
branch_0_0_6 = branch_0_0_4

abbrev pub branch_0_0 : Tree
branch_0_0 = node (codes "fcdc17a0f2e78292d36c066caa52d36fb408fded1aad61a1929023d15e406ee9") (
    Nodes.seven Branch0.branch_0_0_0 Branch1.branch_0_0_1 Branch2.branch_0_0_2 Branch3.branch_0_0_3
      branch_0_0_4 branch_0_0_5 branch_0_0_6)

abbrev branch_0_1 : Tree
branch_0_1 = node (codes "88bd487007bf1a5be47cea944d797895181258aba33c77e8c75fe7e38ad91929") (
    Nodes.seven branch_0_0_4 branch_0_0_4 branch_0_0_4 branch_0_0_4 branch_0_0_4 branch_0_0_4
      branch_0_0_4)

abbrev branch_0_2 : Tree
branch_0_2 = branch_0_1

abbrev branch_0_3 : Tree
branch_0_3 = branch_0_1

abbrev branch_0_4 : Tree
branch_0_4 = branch_0_1

abbrev branch_0_5 : Tree
branch_0_5 = branch_0_1

abbrev branch_0_6 : Tree
branch_0_6 = branch_0_1

abbrev pub branch_0 : Tree
branch_0 =
    node (codes "1558ab4cfb5964941db2fc676d05313b86f5d942336aca4d9e24f8b56d1b7d7a")
      (Nodes.seven branch_0_0 branch_0_1 branch_0_2 branch_0_3 branch_0_4 branch_0_5 branch_0_6)

abbrev empty_branch : Tree
empty_branch = string (codes "Empty branch")

-- A branch that was cut.
abbrev branch_1 : Tree
branch_1 = node (codes "94a4bf5f458f2def50f807bf419501bfd5e77a084c30592aa3803a522a3c272e") (
    Nodes.seven empty_branch empty_branch empty_branch empty_branch empty_branch empty_branch
      empty_branch)

abbrev pub merkle_tree : Tree
merkle_tree =
    node (codes "735cf1a27bad047ca2a5125ea3316eca30b11911314a8935728c16280d2f6620")
      (Nodes.seven branch_0 branch_1 branch_1 branch_1 branch_1 branch_1 branch_1)
