-- ===== src/Client/Transport.antt =====
-- `transport.send(cla, ins, p1, p2, data, statusList)` over the unknown state of the device and the
-- line to it. A promise resolves to the response's bytes, the status word included, or is rejected.
use app_flow.Prelude.{ℕ, List, [], ◌∷◌, Bytes}
use app_flow.Common.{Rejection}

-- `status_list` is the set of status words on which `send` resolves.
pub record Apdu : Type 0 where
  pub cla : ℕ
  pub ins : ℕ
  pub p1 : ℕ
  pub p2 : ℕ
  pub body : Bytes
  pub status_list : List ℕ

pub data Reply : Type 0 where
  resolved : Bytes → Reply
  rejected : Rejection → Reply

pub record Transport : Type 1 where
  pub State : Type 0
  pub send : State → Apdu → State × Reply

-- The state after packets that were sent one after the other.
abbrev pub deliver : (t : Transport) → t.State → List Apdu → t.State
deliver t s [] = s
deliver t s (a ∷ rest) = deliver t (t.send s a).0 rest
