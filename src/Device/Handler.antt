-- ===== src/Device/Handler.antt =====
-- src/apdu_handler.c, `handleApdu` and `handleSign`: which response a SIGN packet gets.
use app_flow.Prelude.{ℕ, ◌+◌, ◌/◌, ◌%◌, ◌||◌, ◌==◌, if◌then◌else◌, List, [], ◌∷◌, Option, Bytes}
use app_flow.Common.{cla}
use app_flow.Client.Ins
use app_flow.Client.Transport.{Apdu, Reply, Transport}
use app_flow.Device.Chunks.{
  Buffering, Machine, Verdict, not_finished, finished_no_metadata, finished_with_metadata,
  finished_message, thrown, process_chunk,
}

abbrev pub cla_not_supported : ℕ
cla_not_supported = 0x6e00

-- The two bytes of a status word at the end of a response.
abbrev pub status_bytes : ℕ → Bytes
status_bytes sw = sw / 256 % 256 ∷ sw % 256 ∷ []

-- CATCH_OTHER: the status word of a code that was thrown.
abbrev pub caught : ℕ → ℕ
caught e = if (e / 0x1000 == 0x6) || (e / 0x1000 == 0x9) then e else 0x6800 + e % 0x800

module _ (b : Buffering) (sha256 : Bytes → Option Bytes) where
  -- What is behind a handler. `review` gives the response once all packets are there: the parse, the
  -- views, the user's decision and the signature. `other` handles the other instructions. `line` is
  -- the transport's library, which settles a promise by a response and the accepted status words.
  pub record Outside : Type 0 where
    pub review : Verdict → Machine b sha256 → Machine b sha256 × Bytes
    pub other : Apdu → Machine b sha256 → Machine b sha256 × Bytes
    pub line : List ℕ → Bytes → Reply

  module _ (outside : Outside) where
    abbrev pub handle_sign : Machine b sha256 × Verdict → Machine b sha256 × Bytes
    handle_sign (m, not_finished) = (m, status_bytes (caught 0x9000))
    handle_sign (m, thrown e) = (m, status_bytes (caught e))
    handle_sign (m, finished_message) = outside.review finished_message m
    handle_sign (m, finished_no_metadata) = outside.review finished_no_metadata m
    handle_sign (m, finished_with_metadata) = outside.review finished_with_metadata m

    -- A packet has its five bytes in front of its body, which `handleApdu` asks for.
    unfoldable pub handle_apdu : Apdu → Machine b sha256 → Machine b sha256 × Bytes
    handle_apdu apdu m =
        if apdu.cla == cla
        then if apdu.ins == Ins.sign
          then handle_sign (process_chunk b sha256 apdu.p1 apdu.p2 apdu.body m)
          else outside.other apdu m
        else (m, status_bytes (caught cla_not_supported))

    -- The device at the end of the line, as the client sees it.
    abbrev pub device : Transport
    device = record {
      State = Machine b sha256;
      send = λ m apdu.
          let (m', response) = handle_apdu apdu m in (m', outside.line apdu.status_list response);
    }
