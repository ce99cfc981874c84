-- ===== src/Shipped/Branch3.antt =====
-- js/src/txMerkleTree.js, the node at [0, 0, 3].
use app_flow.Prelude.{codes}
use app_flow.Merkle.Tree.{Tree, node}
use app_flow.Shipped.Nodes.{leaf, seven}

abbrev pub branch_0_0_3 : Tree
branch_0_0_3 = node (codes "f2070a3be507580f1c50209a1121e1c980d81c0dd51b8e55adc5b5ddafa97adc") (
    seven
      (leaf (codes "1db501d2b5dda1232062fba4dd77bf1b3bd7d4366a6aaf74ccf406cf2caf7e0b") (
        codes
          "02a39eedbe19f252c24ba2cc74aa70c0afd68b8d89528cad05a0a535e2f9c6ee873578c7f3b015df3a807dce45a0df262e79d95683cef20bd6247a8f1184c562795472616e73666572204e6f64650002044e6f6465204944000001416464726573730001416464726573730003"))
      (leaf (codes "acb03d0e42854eb5c740c44a11766c7b5da2a80f4019c31e1e9260f1db23ae5b") (
        codes
          "02135df83060f854d487030594e954e9642e4cf6accb5b5abbdf88a9e0754689138c7b8460f11ae786c207493eac35deaccb456a31f9df34ddecccad12685c61fc5472616e736665722044656c656761746f720003044e6f646520494400000144656c656761746f72204944000155496e743332000301416464726573730002416464726573730003"))
      (leaf (codes "33fe26f945b44c9546cbdf940bef096cd4d6103692963a2f7f122c683a58d710") (
        codes
          "02fdd40862af04dc36dd0e9e727966c6f81dd6be8246b9c70afd18297aac9e86a8e12b16ef4218b8ce52189ae5814b381272bf473436978fae94d01c10c036903457697468647261772046726f6d204d616368696e65204163636f756e740002044e6f6465204944000001416d6f756e7400015546697836340003"))
      (leaf (codes "9d766664f3c0a0ef7609cef3cf8a6e0fd1c69a847db1480492975bef77e565b1") (
        codes
          "023a68789d8cd56e6c7b064057045a56340746aac710db57700de2c33eb6610e5f68d24560d9e49318dca82ab0975f526a8663d934225f0cb715cd1ff188def16d557064617465204e6574776f726b696e6720416464726573730002044e6f6465204944000004416464726573730001"))
      (leaf (codes "9e8bff812b2f0545ce028d95c6daf6ca0ae43e212cf3c24f3ccfeb5bd03316b7") (
        codes
          "02094798e93daeacaa9ff262486a3683ec5a5e2204407e7d00bc3416fbf3efa3b14a830e6f93f74179a99e17c7ae762980c7fdc428bc949767529be2f071ac52b9576974686472617720556e6c6f636b656420464c4f57000101416d6f756e7400005546697836340003"))
      (leaf (codes "a1a73556f8af48486b19446e0fe0a0e706d551aeeea3f0f1e410804b3128a3ad") (
        codes
          "0217ffcd60667893674d8d4044bdd8232959dc8b694df1dd88d1b9c5443352f253038382a947fa96bf2f4dfe5aa9b4b2abee1ef0975955175e80cf911c3edf4b614465706f73697420556e6c6f636b656420464c4f57000101416d6f756e7400005546697836340003"))
      (leaf (codes "e3b0c44298fc1c149afbf4c8996fb92427ae41e4649b934ca495991b7852b855") (codes "")))
