-- ===== src/Device/Chunks.antt =====
-- `process_chunk` of src/common/app_helper.c: one SIGN packet.
use app_flow.Prelude.{
  ℕ, ◌+◌, Bool, ◌&&◌, ◌||◌, not, Option, ltb, ◌==◌, if◌then◌else◌, Bytes, length, take,
}
use app_flow.Js.Buffer.{slice, read_uint32_le}
use app_flow.Device.Stored.{
  Stored, init_stored, ParserStatus, parser_ok, metadata_error, unexpected_error, store_tx_metadata,
  validate_level,
}

-- The buffer of the vendored library: how many bytes `append` has taken is its second result.
pub record Buffering : Type 1 where
  pub State : Type 0
  pub initialize : State → State
  pub append : State → Bytes → State × ℕ

-- What `process_chunk` returns, or the code that it throws.
pub data Verdict : Type 0 where
  not_finished finished_no_metadata finished_with_metadata finished_message : Verdict
  thrown : ℕ → Verdict

abbrev pub wrong_length : ℕ
wrong_length = 0x6700

abbrev pub output_buffer_too_small : ℕ
output_buffer_too_small = 0x6983

abbrev pub data_invalid : ℕ
data_invalid = 0x6984

abbrev pub invalid_p1_p2 : ℕ
invalid_p1_p2 = 0x6b00

-- The first two words of a path are those of the main net or of the test net.
abbrev pub is_known_net : Bytes → Bool
is_known_net path =
    (read_uint32_le path 0 == 0x8000_002c && read_uint32_le path 4 == 0x8000_021b)
    || (read_uint32_le path 0 == 0x8000_002c && read_uint32_le path 4 == 0x8000_0001)

module _ (b : Buffering) (sha256 : Bytes → Option Bytes) where
  -- The globals that a SIGN packet changes.
  pub record Machine : Type 0 where
    pub buffer : b.State
    pub hd_path : Bytes
    pub crypto_options : Bytes
    pub stored : Stored

  -- `extractHDPathAndCryptoOptions`, then `initStoredTxMetadata`. The packet of `rx` bytes has 5 in
  -- front of its body, and the buffer for it 260.
  unfoldable pub start : Bytes → Machine → Machine × Verdict
  start body m =
      if ltb 259 (5 + length body) || ltb (length body) 22
      then (m, thrown wrong_length)
      else if not (is_known_net (take 20 body))
      then (record m { hd_path = take 20 body }, thrown data_invalid)
      else (
        record m {
          hd_path = take 20 body;
          crypto_options = slice body 20 22;
          stored = init_stored;
        },
        not_finished,
      )

  unfoldable pub append : Verdict → Bytes → Machine → Machine × Verdict
  append verdict body m =
      let (buffer, added) = b.append m.buffer body in
      (
        record m { buffer = buffer },
        if added == length body then verdict else thrown output_buffer_too_small,
      )

  -- An error deletes the proof.
  abbrev pub keep : Verdict → Machine → Stored × ParserStatus → Machine × Verdict
  keep verdict m (s, parser_ok) = (record m { stored = s }, verdict)
  keep verdict m (s, metadata_error) = (record m { stored = init_stored }, thrown data_invalid)
  keep verdict m (s, unexpected_error) = (record m { stored = init_stored }, thrown data_invalid)

  unfoldable pub process_chunk : ℕ → ℕ → Bytes → Machine → Machine × Verdict
  process_chunk payload_type p2 body m =
      if not (p2 == 0) && not (payload_type == 0x02)
      then (m, thrown invalid_p1_p2)
      else if payload_type == 0x00
      then start body (record m { buffer = b.initialize m.buffer })
      else if payload_type == 0x01
      then append not_finished body m
      else if payload_type == 0x02
      then append finished_no_metadata body m
      else if payload_type == 0x03
      then keep not_finished m (store_tx_metadata sha256 body m.stored)
      else if payload_type == 0x04
      then keep not_finished m (validate_level sha256 body m.stored)
      else if payload_type == 0x05
      then keep finished_with_metadata m (validate_level sha256 body m.stored)
      else if payload_type == 0x10
      then append finished_message body m
      else (m, thrown invalid_p1_p2)
