-- ===== src/Shipped/Branch1.antt =====
-- js/src/txMerkleTree.js, the node at [0, 0, 1].
use app_flow.Prelude.{codes}
use app_flow.Merkle.Tree.{Tree, node}
use app_flow.Shipped.Nodes.{leaf, seven}

abbrev pub branch_0_0_1 : Tree
branch_0_0_1 = node (codes "a70ead9e24c865314c33b8768be2e8e2750fab13a3d6be4687949c1f3893b69c") (
    seven
      (leaf (codes "89a752fa39b7d339b5a04635204216ff4278e278813e64f6b31c338cd3df4a0e") (
        codes
          "02db0518029ca76e6f2d8ec1517768b1d395523e87d11a4297197f98b53dc9cc2d2cb2cd6408a35f08b4f9b13e6e6b44d5325eb78a7a1eebb0e790ee285bdd13655472616e73666572204e46542077697468205061746873000401526563697069656e740000416464726573730003014e465420494420746f205472616e7366000155496e74363400030453656e2e20436f6c6c20506174682049640002045265632e20436f6c6c20506174682049640003"))
      (leaf (codes "b25b557e667aeddba8df949aa742b31a11ced37bf3bdcace14b59b568c9daa14") (
        codes
          "02e4b837ce4d30be9bc74768085a0b43ba4d5edb3bed9c23c18b6a4de1024d459b91fd4533a93f55a756484958e5409b9666c85e4191e9ba6f5fb3587a973d4eb55472616e73666572204e465420776974682041646472657373000401526563697069656e740000416464726573730003014e465420494420746f205472616e7366000155496e7436340003014e465420436f6e747261637420416464720002416464726573730003044e465420436f6e7472616374204e616d650003"))
      (leaf (codes "bad7c2258efa36af460d217adf5b7739ba66dfd31d3c2441f88c01d355170bdc") (
        codes
          "02861784e7ac135a9cfec90decdff2e53971a4d63135db77bcef3b273b710b181469f30decc15bd78107c631e200963398e8ddbc58bb61e577d223725f348fc2d95365747570205374616b696e6720436f6c6c656374696f6e0000"))
      (leaf (codes "b32d0691dd4929520d2addca959ec126a63e6a01f1ad4947343c0768a3036f41") (
        codes
          "02e093df9c425be9cdbee44bdbbd721f6aff523e41802a50cf0ff353873e9f94830a41e53ad3c9c1c16c8732dd8331b8ca66063617d433b01d4d09c4730044874452656769737465722044656c656761746f720002044e6f6465204944000001416d6f756e7400015546697836340003"))
      (leaf (codes "a43b931de8c8c285d05762b822f4d36a8e0c5de4dbd5ce33467df492a673a899") (
        codes
          "02deb5f758f3eb3b125cd9b14a6528f18d535377709fcef41e743751eb828009213b0b2bbc3a2ad674122c182112f7008a8d3d1b60b107033c0ebe7bbe50df52675265676973746572204e6f64650009044e6f64652049440000074e6f646520526f6c650001044e6574772e20416464726573730002044e6574772e204b65790003045374616b696e67204b6579000401416d6f756e7400055546697836340003044d41205075622e204b65790006064d41205369676e2e20416c672e0007054d41204861736820416c672e0008"))
      (leaf (codes "a2cac12372d6a5dab1cb8f8be672b75997c22a4ea701c9d23d0e0e2fb5b4de19") (
        codes
          "024c1ad61500bcd0d32d7aa7eb84ca9b7417219ed6d524e05de8c55fb7d50940e4f0a6cedb6703cd4ce4cc3b735e5edb5a7e5b17a87a725343d745e5d53b7c0a01437265617465204d616368696e65204163636f756e740004044e6f64652049440000044d41205075622e204b65790001064d41205369676e2e20416c672e0002054d41204861736820416c672e0003"))
      (leaf (codes "df6227d64fed44dcd61eb061157b6a9a2e182f8fcd79fda4710c85af12255ae0") (
        codes
          "022d59f2c2c402f919c8dba30009e31480d54e2b250d2e10456e1ff029bd7cce99f26c058a127500fcd8445ba9fcf55149fe8f1a1a7cd212688d13fcd6ee2765295265717565737420556e7374616b696e670003044e6f646520494400000244656c656761746f72204944000155496e743332000301416d6f756e7400025546697836340003")))
