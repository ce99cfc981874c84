-- ===== src/Sign/PayloadType.antt =====
-- PAYLOAD_TYPE, the values of P1 of the SIGN instruction.
use app_flow.Prelude.{ℕ}

abbrev pub init : ℕ
init = 0x00

abbrev pub add : ℕ
add = 0x01

abbrev pub last : ℕ
last = 0x02

abbrev pub tx_metadata : ℕ
tx_metadata = 0x03

abbrev pub merkle_tree : ℕ
merkle_tree = 0x04

abbrev pub merkle_tree_last : ℕ
merkle_tree_last = 0x05

abbrev pub message_last : ℕ
message_last = 0x10
