-- ===== src/Shipped/Branch0.antt =====
-- js/src/txMerkleTree.js, the node at [0, 0, 0].
use app_flow.Prelude.{codes}
use app_flow.Merkle.Tree.{Tree, node}
use app_flow.Shipped.Nodes.{leaf, seven}

abbrev pub branch_0_0_0 : Tree
branch_0_0_0 = node (codes "fdc9ed4c7d1cdd61c7d54718392d3b0d250fe687ca5dc36e49707cb82888f459") (
    seven
      (leaf (codes "c43cfe541b0628a223d0b531ae1c92b537d22438fd19fd98ecf8b7759a56699c") (
        codes
          "02c4a7efd8708396e8c7a3611f72a9f89f675bf6d5c9336dd389e5839cba78443cc4a7efd8708396e8c7a3611f72a9f89f675bf6d5c9336dd389e5839cba78443c437265617465204163636f756e740004045075626c6963204b65790000065369676e617475726520416c672e0001054861736820416c672e0002014b65792057656967687400035546697836340003"))
      (leaf (codes "85992afd3e94015265d19d9fc7c7cbe04e1a1496b2fd6473dcae0c6b404f77c8") (
        codes
          "021c9d1210f2bf129b86803b153e137420c9117e8a2409a1e2ef6f916a4e8d611f1c9d1210f2bf129b86803b153e137420c9117e8a2409a1e2ef6f916a4e8d611f416464204b65790004045075626c6963204b65790000065369676e617475726520416c672e0001054861736820416c672e0002014b65792057656967687400035546697836340003"))
      (leaf (codes "b5b81e2d8d86b60ca608b709cbe3c61fd45cd371699896cd26e915bda7814bdd") (
        codes
          "026c7ab72837fdce77a910f6fc0c622c6c4d5b17f6fbf7295f345d50d3508dd5156c7ab72837fdce77a910f6fc0c622c6c4d5b17f6fbf7295f345d50d3508dd51552656d6f7665204b65790001014b657920496e6465780000496e740003"))
      (leaf (codes "eb6840289224d8506819dd85ba3a8b8df504de1079e5353e5ab36d20f987569f") (
        codes
          "023ccbbfebf10c47c49e4058a33fd9a29c4191c545de52c9afd27a29d38110aa280246076f1cf5d3160397766a9227b35f592f4d15c014848044c509818328b62b53657475702046756e6769626c6520546f6b656e205661756c74000201465420436f6e747261637420416464722e000041646472657373000304465420436f6e7472616374204e616d650001"))
      (leaf (codes "8f69d764860ca602c24cb13858d1cc69b94f37f1c34edf1156b3ab9409e8a7ef") (
        codes
          "02c9b9a6156280812703c15dde74df95cd0d7d1034dd2d8bf0cccf72b6071429886e5b8c83a3e8445eaa4bed391978443f124d9aa457fabdbaa016e0f65b57591e5472616e736665722046756e6769626c6520546f6b656e2077697468205061746873000401416d6f756e740000554669783634000301526563697069656e7400014164647265737300030453656e2e20436f6c6c20506174682049640002045265632e20436f6c6c20506174682049640003"))
      (leaf (codes "b022a37057dc012ce244a35a12a71ca047552658e04d49cdb92c6b9d0c706cc8") (
        codes
          "020adc1ebe8246cf7656aefd9bf336f7f0c102a039e343776da61da4d6aa39aed2d8f826a451d808697ed3ce7908a080c05219df458e3e6cd4ccd073600c58e6005472616e736665722046756e6769626c6520546f6b656e20776974682041646472000401416d6f756e740000554669783634000301526563697069656e74000141646472657373000301465420436f6e747261637420416464722e000241646472657373000304465420436f6e7472616374204e616d650003"))
      (leaf (codes "1daeeae363c035bbf2446c0c50d742444fbf9c392eccbec90f9b70591f217cbb") (
        codes
          "0254fae25bb09f5a324821b644890acbc5a356bcbe821218edeb18bd3042dcd333a25e07dea5eb608387d3766fd6ce0110491599a6d61a5e7e9afddd19a7e766115365747570204e465420436f6c6c656374696f6e0002014e465420436f6e747261637420416464720000416464726573730003044e465420436f6e7472616374204e616d650001")))
