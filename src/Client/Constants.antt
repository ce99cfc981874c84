-- ===== src/Client/Constants.antt =====
-- The getters of FlowApp that hold constants of crypto options, and its constructor.
use app_flow.Prelude.{ℕ, Option, none, some, Result, ok, err}
use app_flow.Client.Transport.{Transport}

-- FlowApp.Hash
abbrev pub sha2_256 : ℕ
sha2_256 = 0x01

abbrev pub sha3_256 : ℕ
sha3_256 = 0x03

-- FlowApp.Signature
abbrev pub p256 : ℕ
p256 = 0x0200

abbrev pub secp256k1 : ℕ
secp256k1 = 0x0300

pub data ConstructError : Type 0 where
  no_transport : ConstructError

-- The constructor; `none` stands for an argument that counts as false.
unfoldable pub construct : Option Transport → Result ConstructError Transport
construct none = err no_transport
construct (some transport) = ok transport
