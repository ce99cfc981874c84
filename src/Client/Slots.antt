-- ===== src/Client/Slots.antt =====
-- Account slots: what `setSlot` sends, and that `getSlot` reads it back.
use app_flow.Prelude.{
  ℕ, ◌+◌, ◌%◌, ◌^◌, ◌<◌, ◌≡◌, sym, ap, ap₂, ◌∙◌, false, some, List, [], ◌∷◌, ◌++◌, append_assoc,
  arith, Text, Bytes, IsByte, All, length, length-append, take, drop, take-append_eq,
  drop-append_eq, drop-drop, ok,
}
use app_flow.Js.Number.{JsNumber, of_ℕ, is_nan, is_negative-of_ℕ, gt-of_ℕ, ge-of_ℕ, is_integer-of_ℕ}
use app_flow.Js.Buffer.{truncated, truncated-of_ℕ, slice, le_bytes, from_le}
use app_flow.Js.Hex.{to_hex, from_hex, from_hex-to_hex_whole}
use app_flow.Path.{PathArg, text, OptionsArg, number, validate_crypto_options, serialize_path}
use app_flow.Path.Items.{Item, IsItem}
use app_flow.Path.Layout.{path_text, path_bytes, serialize_path-path_text}
use app_flow.Path.Print.{IsPrintable, print_bip44_path-path_bytes}
use app_flow.Common.{error_code_to_string}
use app_flow.Common.ErrorCodes.{return_code-append}
use app_flow.Client.Ins
use app_flow.Client.Transport.{Transport}
use app_flow.Client.Responses.{process_get_slot, signed16}
use app_flow.Client.Payloads.{plain_apdu, is_bad_slot, slot_payload}
use app_flow.Client.App.{set_slot}

-- The 30 bytes of a slot: account, path and options.
abbrev pub slot_bytes : Bytes → List Item → ℕ → Bytes
slot_bytes account items options = account ++ (path_bytes items ++ le_bytes 2 options)

pub validate_whole : (n : ℕ) → n < 2 ^ 16 → validate_crypto_options (number (of_ℕ n)) ≡ ok (of_ℕ n)
unfolding validate_crypto_options
validate_whole n h = rw (is_integer-of_ℕ n, is_negative-of_ℕ n, ge-of_ℕ 65536 n h)

good_slot : (n : ℕ) → n < 64 → is_bad_slot (of_ℕ n) ≡ false
unfolding is_nan
good_slot n h = rw (is_negative-of_ℕ n, gt-of_ℕ 63 n (omega arith))

slot_payload_parts :
    (idx x : JsNumber) (account : Text) (path : PathArg) (crypto_options : OptionsArg)
    (serialized : Bytes)
    → validate_crypto_options crypto_options ≡ ok x
    → serialize_path path x ≡ ok serialized
    → length (from_hex account) ≡ 8
    → slot_payload idx account path crypto_options
      ≡ ok (some (truncated idx % 256 ∷ (from_hex account ++ serialized)))
unfolding slot_payload
slot_payload_parts idx x account path crypto_options serialized hv hs hl = rw (hv, hs, hl)

module _ (a b c d e : Item) (account : Bytes) (options idx : ℕ) where
  abbrev items : List Item
  items = a ∷ b ∷ c ∷ d ∷ e ∷ []

  slot_payload_whole :
      All IsItem items
      → All IsByte account
      → length account ≡ 8
      → options < 2 ^ 16
      → idx < 64
      → slot_payload (of_ℕ idx) (to_hex account) (text (path_text items)) (number (of_ℕ options))
        ≡ ok (some (idx ∷ slot_bytes account items options))
  slot_payload_whole hi hb hl ho hx =
      let decoded = from_hex-to_hex_whole account hb in
      let small : truncated (of_ℕ idx) % 256 ≡ idx =
        ap (λ n. n % 256) (truncated-of_ℕ idx) ∙ omega arith in
      slot_payload_parts (of_ℕ idx) (of_ℕ options) (to_hex account) (text (path_text items))
        (number (of_ℕ options)) (path_bytes items ++ le_bytes 2 options) (validate_whole options ho)
        (serialize_path-path_text a b c d e options hi ho) (ap length decoded ∙ hl)
      ∙ ap₂ (λ i bs. ok (some (i ∷ (bs ++ (path_bytes items ++ le_bytes 2 options))))) small decoded

  -- `setSlot` on valid arguments sends one packet: the slot's index and the 30 bytes of the slot.
  pub set_slot_sends :
      (t : Transport) (engine_text : Text) (s : t.State)
      → All IsItem items
      → All IsByte account
      → length account ≡ 8
      → options < 2 ^ 16
      → idx < 64
      → (set_slot t engine_text
          (of_ℕ idx)
          (to_hex account)
          (text (path_text items))
          (number (of_ℕ options))
          s).0
        ≡ (t.send s (plain_apdu Ins.set_slot (idx ∷ slot_bytes account items options))).0
  set_slot_sends t engine_text s hi hb hl ho hx =
      unfold set_slot in rw (good_slot idx hx, slot_payload_whole hi hb hl ho hx)

  abbrev response : Bytes
  response = slot_bytes account items options ++ 0x90 ∷ 0x00 ∷ []

  abbrev behind_account : Bytes
  behind_account = (path_bytes items ++ le_bytes 2 options) ++ 0x90 ∷ 0x00 ∷ []

  response_parts : response ≡ account ++ behind_account
  response_parts = append_assoc account (path_bytes items ++ le_bytes 2 options) (0x90 ∷ 0x00 ∷ [])

  drop-response : length account ≡ 8 → drop 8 response ≡ behind_account
  drop-response hl = ap (drop 8) response_parts ∙ drop-append_eq 8 account behind_account hl

  path_slice : length account ≡ 8 → slice response 8 28 ≡ path_bytes items
  path_slice hl = ap (take 20) (drop-response hl)

  options_slice : length account ≡ 8 → options < 2 ^ 16 → from_le (slice response 28 30) ≡ options
  options_slice hl ho =
      ap (λ bs. from_le (take 2 bs))
        (sym (drop-drop 20 8 response) ∙ ap (drop 20) (drop-response hl))
      ∙ omega arith

  account_slice : length account ≡ 8 → take 8 response ≡ account
  account_slice hl = ap (take 8) response_parts ∙ take-append_eq 8 account behind_account hl

  length-response : length account ≡ 8 → length response ≡ 32
  length-response hl =
      ap length response_parts ∙ length-append account behind_account ∙ ap (λ n. n + 24) hl

  -- `getSlot` on a response with the bytes that `setSlot` sent for the slot gives the account and the
  -- path as they were passed to it, if each index that is not hardened is below 2 ^ 27. The options
  -- come back as a signed number.
  pub process_get_slot-slot_bytes :
      All IsPrintable items
      → length account ≡ 8
      → options < 2 ^ 16
      → process_get_slot (of_ℕ idx) (slot_bytes account items options ++ 0x90 ∷ 0x00 ∷ [])
        ≡ ok (record {
          return_code = some 0x9000;
          error_message = error_code_to_string (some 0x9000);
          slot_idx = of_ℕ idx;
          account = to_hex account;
          path = path_text items;
          options = some (signed16 options);
        })
  process_get_slot-slot_bytes hp hl ho =
      unfold process_get_slot in
      rw (
        path_slice hl,
        print_bip44_path-path_bytes a b c d e hp,
        account_slice hl,
        length-response hl,
        options_slice hl ho,
        return_code-append (slot_bytes account items options) 0x90 0x00,
      )
