-- ===== src/Client/Ins.antt =====
-- INS, the instructions of the device's app.
use app_flow.Prelude.{ℕ}

abbrev pub get_version : ℕ
get_version = 0x00

abbrev pub get_pubkey : ℕ
get_pubkey = 0x01

abbrev pub sign : ℕ
sign = 0x02

abbrev pub slot_status : ℕ
slot_status = 0x10

abbrev pub get_slot : ℕ
get_slot = 0x11

abbrev pub set_slot : ℕ
set_slot = 0x12
