-- ===== src/Shipped/Branch2.antt =====
-- js/src/txMerkleTree.js, the node at [0, 0, 2].
use app_flow.Prelude.{codes}
use app_flow.Merkle.Tree.{Tree, node}
use app_flow.Shipped.Nodes.{leaf, seven}

abbrev pub branch_0_0_2 : Tree
branch_0_0_2 = node (codes "32412631b4049669cbe83a3dfb6a6d56d34f7c67fc8eea50f674d45aebfc83c7") (
    seven
      (leaf (codes "67ac47bc65b310ba21562b3fb8c1b436ba8b509fdfa7a0a70edd1c432d421ae7") (
        codes
          "02cf2b03950077352487e6344ab65edc3e1856731ab9cf68aa2ebbe279ae496d4b4c0658934352486097cc89fa06b98bac21e514770fc6a4d70a7adc4bec6d711d5374616b65204e657720546f6b656e730003044e6f646520494400000244656c656761746f72204944000155496e743332000301416d6f756e7400025546697836340003"))
      (leaf (codes "9971a7634ebcf14d2dfe0402d186d9bd0fec69de373cc55e882de7f3c0059581") (
        codes
          "024395faf2e515eea4d40f82416ad387575f0d5a580612223c361130e53e72f00bc989e8b3beb9c2eb5af2ee1e11d592c9f1131e76e7ef105a0d40cf1610d1e3485374616b6520526577617264656420546f6b656e730003044e6f646520494400000244656c656761746f72204944000155496e743332000301416d6f756e7400025546697836340003"))
      (leaf (codes "35ae4ac757793d273e6701e73734e4f56614e67c477d4ee692c67824d2f1d5b3") (
        codes
          "020b1721f2a8ef6c0c4121ef83c7b38f2141eebcd65c72dab9ebaafe1b4d66fea8fe6adb75bf22b2033800e916fa7e3a7810417e9a36d35320de7f4b5f7ec4f1b85374616b6520556e7374616b656420546f6b656e730003044e6f646520494400000244656c656761746f72204944000155496e743332000301416d6f756e7400025546697836340003"))
      (leaf (codes "0d5445e0555e58eb96de8fdd7470b5b7225f73c82c68a8588afb3f5b31e9c10e") (
        codes
          "02c84843e3399be2ce95ea00e7c17d72db3c5c3363ec008c7a1c1cfa5b6afe70ae1c8256fb857f6c6fd929511ecac8624d0159877cf72c884f7128297dfb069510556e7374616b6520416c6c0001044e6f64652049440000"))
      (leaf (codes "44c44658ab36e0b3ed2ea3ef1cd86a292dd62b9e5430970a13973fd59b2c8b7a") (
        codes
          "025a07ca4c016973bdeb168590e111b2c2855833b5ece11ffb28b08b8668f258a8fbd8ebbfff7a88b6b667ff4e3f9f904eaaba71cbf02a140f3b7007c61fbd8f34576974686472617720526577617264656420546f6b656e730003044e6f646520494400000244656c656761746f72204944000155496e743332000301416d6f756e7400025546697836340003"))
      (leaf (codes "44d6231310dc495279669eec80dce4093ca842aceb5d601b55fb37da492fe7a5") (
        codes
          "0201fd4ea83d20510d24ed9f245873a7ee2715aefb774495c80bce7e3e34d6442ec2484f17e640e285769c3edaa6f2d090dcef1f2f57983f82b7179c3c047290ca576974686472617720556e7374616b656420546f6b656e730003044e6f646520494400000244656c656761746f72204944000155496e743332000301416d6f756e7400025546697836340003"))
      (leaf (codes "bb8882bd3ffbfee5e0e57b74d8d850c255e33cb7a8bfe5b624d71edb85dc9c2b") (
        codes
          "027e216d96d75414b27c2301a3b0a7816804d43014337a14731d1493531116d185a0fad319bf8aede66212257ad0d21532858381e2c9d7c4cec179b28180f5be93436c6f7365205374616b650002044e6f646520494400000244656c656761746f72204944000155496e7433320003")))
