-- ===== src/Client/Address.antt =====
-- `getAddressAndPubKey` and `showAddressAndPubKey`: what is sent, and what is read from a response.
use app_flow.Prelude.{
  ℕ, ◌-◌, ◌^◌, ◌<◌, ◌≡◌, refl, sym, ap, ◌∙◌, some, List, [], ◌∷◌, ◌++◌, append_assoc, arith, Text,
  Bytes, codes, All, length, length-append, take, take-append, take-append_eq, drop-append_eq, ok,
}
use app_flow.Js.Number.{of_ℕ}
use app_flow.Js.Buffer.{le_bytes}
use app_flow.Js.Utf8.{to_string}
use app_flow.Path.{text, number}
use app_flow.Path.Items.{Item, IsItem}
use app_flow.Path.Layout.{path_text, path_bytes, serialize_path-path_text}
use app_flow.Common.{return_code, error_code_to_string}
use app_flow.Common.ErrorCodes.{return_code-append}
use app_flow.Client.Ins
use app_flow.Client.Transport.{Apdu, resolved, Transport}
use app_flow.Client.Responses.{AddressInfo, process_get_addr_response, without_status}
use app_flow.Client.Payloads.{answer, plain_apdu, key_payload, settle}
use app_flow.Client.App.{get_address_and_pub_key, show_address_and_pub_key}
use app_flow.Client.Slots.{validate_whole}

abbrev pub key_apdu : ℕ → List Item → ℕ → Apdu
key_apdu p1 items options =
    record (plain_apdu Ins.get_pubkey (path_bytes items ++ le_bytes 2 options)) { p1 = p1 }

-- A key of 65 bytes, an address and the status word of a success.
abbrev pub key_response : Bytes → Bytes → Bytes
key_response public_key address = public_key ++ (address ++ 0x90 ∷ 0x00 ∷ [])

abbrev pub key_info : Bytes → Bytes → AddressInfo
key_info public_key address = record {
  public_key = public_key;
  address = to_string address;
  return_code = some 0x9000;
  error_message = codes "No errors";
}

without_status-append : (body : Bytes) → without_status (body ++ 0x90 ∷ 0x00 ∷ []) ≡ body
without_status-append body =
    let n : length (body ++ 0x90 ∷ 0x00 ∷ []) - 2 ≡ length body =
      omega (arith, length-append body (0x90 ∷ 0x00 ∷ [])) in
    ap (λ k. take k (body ++ 0x90 ∷ 0x00 ∷ [])) n ∙ take-append body (0x90 ∷ 0x00 ∷ [])

pub process_get_addr_response-key_response :
    (public_key address : Bytes)
    → length public_key ≡ 65
    → process_get_addr_response (key_response public_key address) ≡ key_info public_key address
unfolding process_get_addr_response error_code_to_string
process_get_addr_response-key_response public_key address h =
    let behind = address ++ 0x90 ∷ 0x00 ∷ [] in
    let code =
      ap return_code (sym (append_assoc public_key address (0x90 ∷ 0x00 ∷ [])))
      ∙ return_code-append (public_key ++ address) 0x90 0x00 in
    rw
      (
        take-append_eq 65 public_key behind h,
        drop-append_eq 65 public_key behind h,
        without_status-append address,
        code,
      )
      refl

module _ (a b c d e : Item) (options : ℕ) where
  abbrev items : List Item
  items = a ∷ b ∷ c ∷ d ∷ e ∷ []

  key_payload-path_text :
      All IsItem items
      → options < 2 ^ 16
      → key_payload (text (path_text items)) (number (of_ℕ options))
        ≡ ok (path_bytes items ++ le_bytes 2 options)
  unfolding key_payload
  key_payload-path_text hi ho =
      rw (validate_whole options ho, serialize_path-path_text a b c d e options hi ho) refl

  -- On a valid path and options each of the two methods sends one packet with the path and the options,
  -- its P1 0 or 1, and reads the key and the address from the response of a success, the address being
  -- the text that its bytes are decoded to as UTF-8.
  pub get_address_and_pub_key_reads :
      (t : Transport) (engine_text : Text) (s : t.State) (public_key address : Bytes)
      → All IsItem items
      → options < 2 ^ 16
      → length public_key ≡ 65
      → (t.send s (key_apdu 0 items options)).1 ≡ resolved (key_response public_key address)
      → (t.send s (key_apdu 1 items options)).1 ≡ resolved (key_response public_key address)
      → (get_address_and_pub_key t engine_text (text (path_text items)) (number (of_ℕ options)) s
          ≡ ((t.send s (key_apdu 0 items options)).0, ok (answer (key_info public_key address))))
        × (show_address_and_pub_key t engine_text (text (path_text items)) (number (of_ℕ options)) s
            ≡ ((t.send s (key_apdu 1 items options)).0, ok (answer (key_info public_key address))))
  unfolding settle
  get_address_and_pub_key_reads t engine_text s public_key address hi ho hl r0 r1 =
      let read = process_get_addr_response-key_response public_key address hl in
      let payload = key_payload-path_text hi ho in
      (
        unfold get_address_and_pub_key in rw (payload, r0, read) refl,
        unfold show_address_and_pub_key in rw (payload, r1, read) refl,
      )
