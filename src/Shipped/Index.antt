-- ===== src/Shipped/Index.antt =====
-- js/src/txMerkleTree.js, the index: the first 16 digits of a script hash, and where its leaf is.
use app_flow.Prelude.{ℕ, [], ◌∷◌, ◌++◌, codes}
use app_flow.Sign.{LeafIndex, MerkleIndex}

abbrev at : ℕ → ℕ → ℕ → ℕ → LeafIndex
at i0 i1 i2 i3 = record { i0 = i0; i1 = i1; i2 = i2; i3 = i3 }

abbrev first_entries : MerkleIndex
first_entries =
    (codes "c4a7efd8708396e8", at 0 0 0 0)
    ∷ (codes "1c9d1210f2bf129b", at 0 0 0 1)
    ∷ (codes "6c7ab72837fdce77", at 0 0 0 2)
    ∷ (codes "3ccbbfebf10c47c4", at 0 0 0 3)
    ∷ (codes "0246076f1cf5d316", at 0 0 0 3)
    ∷ (codes "c9b9a61562808127", at 0 0 0 4)
    ∷ (codes "6e5b8c83a3e8445e", at 0 0 0 4)
    ∷ (codes "0adc1ebe8246cf76", at 0 0 0 5)
    ∷ (codes "d8f826a451d80869", at 0 0 0 5)
    ∷ (codes "54fae25bb09f5a32", at 0 0 0 6)
    ∷ (codes "a25e07dea5eb6083", at 0 0 0 6)
    ∷ (codes "db0518029ca76e6f", at 0 0 1 0)
    ∷ (codes "2cb2cd6408a35f08", at 0 0 1 0)
    ∷ (codes "e4b837ce4d30be9b", at 0 0 1 1)
    ∷ (codes "91fd4533a93f55a7", at 0 0 1 1)
    ∷ (codes "861784e7ac135a9c", at 0 0 1 2)
    ∷ (codes "69f30decc15bd781", at 0 0 1 2)
    ∷ (codes "e093df9c425be9cd", at 0 0 1 3)
    ∷ (codes "0a41e53ad3c9c1c1", at 0 0 1 3)
    ∷ (codes "deb5f758f3eb3b12", at 0 0 1 4)
    ∷ (codes "3b0b2bbc3a2ad674", at 0 0 1 4)
    ∷ (codes "4c1ad61500bcd0d3", at 0 0 1 5)
    ∷ (codes "f0a6cedb6703cd4c", at 0 0 1 5)
    ∷ (codes "2d59f2c2c402f919", at 0 0 1 6)
    ∷ []

abbrev last_entries : MerkleIndex
last_entries =
    (codes "f26c058a127500fc", at 0 0 1 6)
    ∷ (codes "cf2b039500773524", at 0 0 2 0)
    ∷ (codes "4c06589343524860", at 0 0 2 0)
    ∷ (codes "4395faf2e515eea4", at 0 0 2 1)
    ∷ (codes "c989e8b3beb9c2eb", at 0 0 2 1)
    ∷ (codes "0b1721f2a8ef6c0c", at 0 0 2 2)
    ∷ (codes "fe6adb75bf22b203", at 0 0 2 2)
    ∷ (codes "c84843e3399be2ce", at 0 0 2 3)
    ∷ (codes "1c8256fb857f6c6f", at 0 0 2 3)
    ∷ (codes "5a07ca4c016973bd", at 0 0 2 4)
    ∷ (codes "fbd8ebbfff7a88b6", at 0 0 2 4)
    ∷ (codes "01fd4ea83d20510d", at 0 0 2 5)
    ∷ (codes "c2484f17e640e285", at 0 0 2 5)
    ∷ (codes "7e216d96d75414b2", at 0 0 2 6)
    ∷ (codes "a0fad319bf8aede6", at 0 0 2 6)
    ∷ (codes "a39eedbe19f252c2", at 0 0 3 0)
    ∷ (codes "3578c7f3b015df3a", at 0 0 3 0)
    ∷ (codes "135df83060f854d4", at 0 0 3 1)
    ∷ (codes "8c7b8460f11ae786", at 0 0 3 1)
    ∷ (codes "fdd40862af04dc36", at 0 0 3 2)
    ∷ (codes "e12b16ef4218b8ce", at 0 0 3 2)
    ∷ (codes "3a68789d8cd56e6c", at 0 0 3 3)
    ∷ (codes "68d24560d9e49318", at 0 0 3 3)
    ∷ (codes "094798e93daeacaa", at 0 0 3 4)
    ∷ (codes "4a830e6f93f74179", at 0 0 3 4)
    ∷ (codes "17ffcd6066789367", at 0 0 3 5)
    ∷ (codes "038382a947fa96bf", at 0 0 3 5)
    ∷ []

abbrev pub merkle_index : MerkleIndex
merkle_index = first_entries ++ last_entries
