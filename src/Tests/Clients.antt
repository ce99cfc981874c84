-- ===== src/Tests/Clients.antt =====
-- FlowApp over a scripted transport, and the theorems of Client at concrete inputs.
use app_flow.Prelude.{
  ℕ, ◌≡◌, ◌↔◌, refl, true, false, inl, inr, none, some, List, [], ◌∷◌, ◌++◌, arith, Bytes, codes,
  replicate, ok,
}
use app_flow.Js.Number.{of_ℕ}
use app_flow.Js.Hex.{to_hex}
use app_flow.Path.{number}
use app_flow.Path.Layout.{path_text}
use app_flow.Tests.Samples.{
  wallet, wallet_path, serialized, hard, soft, options, wallet_written, accepted_options,
  small_tree, small_index, unknown_key,
}
use app_flow.Common
use app_flow.Common.Version.{
  VersionInfo, IsVersion, less, compare_version-less_iff, version, parse_version, IsBefore,
  compare_version,
}
use app_flow.Sign
use app_flow.Sign.{Chunk, sign_get_chunks, prepare_basic_chunks, add_chunks, set_last_type}
use app_flow.Client.Transport.{Reply, resolved, rejected, Transport}
use app_flow.Client.Responses.{SignResult, process_sign_response, minus, process_get_slot}
use app_flow.Client.Payloads.{
  bad_version_response, not_initialized, answer, refused, is_old, settle_sign,
}
use app_flow.Client.App.{get_version, sign_loop, set_slot, sign_implementation}
use app_flow.Client.Signing.{
  sign_is_last_apdu_always, signed, sign_loop_stops, sign_implementation_signs,
}
use app_flow.Client.Gate.{is_old_iff, sign_implementation_old, sign_implementation_unknown}
use app_flow.Client.App.{get_address_and_pub_key, show_address_and_pub_key}
use app_flow.Client.Address.{key_response, key_info, get_address_and_pub_key_reads}
use app_flow.Client.Slots.{slot_bytes, set_slot_sends, process_get_slot-slot_bytes}

-- The state is the list of responses still to come.
abbrev answer_next : List Reply → List Reply × Reply
answer_next [] = ([], rejected Common.nothing)
answer_next (r ∷ rs) = (rs, r)

abbrev script : Transport
script = record { State = List Reply; send = λ s a. answer_next s }

abbrev status_ok : Bytes
status_ok = 0x90 ∷ 0x00 ∷ []

abbrev version_reply : ℕ → Reply
version_reply minor = resolved (0 ∷ 0 ∷ minor ∷ 0 ∷ 0 ∷ 0x31 ∷ 0x10 ∷ 0 ∷ 4 ∷ status_ok)

-- js/test/test.js, `getVersion`.
test_version :
    (get_version script [] (version_reply 12 ∷ [])).1
    ≡ version (record {
      return_code = some 0x9000;
      error_message = codes "No errors";
      test_mode = false;
      major = some 0;
      minor = some 12;
      patch = some 0;
      device_locked = false;
      target_id = codes "31100004";
    })
unfolding get_version parse_version app_flow.Js.Hex.hex_digit Common.return_code
    Common.error_code_to_string
test_version = refl

abbrev packet : ℕ → Chunk
packet type = record { type = type; p2 = 0; buffer = 7 ∷ [] }

abbrev accepted_result : SignResult
accepted_result = record {
  return_code = some 0x9000;
  error_message = codes "No errors";
  signature_compact = some (0x90 ∷ 0x00 ∷ []);
  signature_der = some [];
}

abbrev rejected_result : SignResult
rejected_result = record {
  return_code = some 0x6986;
  error_message = codes "Transaction rejected";
  signature_compact = none;
  signature_der = none;
}

settle_ok : (type : ℕ) → settle_sign type (resolved status_ok) ≡ ok accepted_result
unfolding settle_sign process_sign_response Common.return_code Common.error_code_to_string
settle_ok type = rw (sign_is_last_apdu_always type) refl

settle_no : (type : ℕ) → settle_sign type (rejected (Common.status 0x6986)) ≡ ok rejected_result
unfolding settle_sign Common.process_error_response Common.error_code_to_string
settle_no type = refl

abbrev told : ℕ → VersionInfo
told minor = parse_version (0 ∷ 0 ∷ minor ∷ 0 ∷ 0 ∷ 0x31 ∷ 0x10 ∷ 0 ∷ 4 ∷ status_ok)

told-IsVersion : (minor : ℕ) → IsVersion (told minor) 0 minor 0
unfolding parse_version
told-IsVersion minor = (refl, refl, refl)

compare_version-less_iff_example :
    (compare_version (version (told 11)) 0 12 0 ≡ less) ↔ IsBefore 0 11 0 0 12 0
compare_version-less_iff_example =
    compare_version-less_iff (told 11) 0 11 0 0 12 0 (told-IsVersion 11)

is_old_iff_example : (is_old (version (told 12)) ≡ true) ↔ IsBefore 0 12 0 0 12 0
is_old_iff_example = is_old_iff (told 12) 0 12 0 (told-IsVersion 12)

asked : (minor : ℕ) → (get_version script [] (version_reply minor ∷ [])).1 ≡ version (told minor)
unfolding get_version
asked minor = refl

not_old : is_old (get_version script [] (version_reply 12 ∷ [])).1 ≡ false
unfolding get_version parse_version compare_version
not_old = refl

-- The user rejects the second of three packets.
sign_loop_stops_example :
    sign_loop script []
      (packet 0 ∷ packet 1 ∷ packet 2 ∷ [])
      (resolved status_ok ∷ rejected (Common.status 0x6986) ∷ [])
      not_initialized
    ≡ ([], ok rejected_result)
sign_loop_stops_example =
    sign_loop_stops script [] (packet 0 ∷ []) (packet 1) (packet 2 ∷ [])
      (resolved status_ok ∷ rejected (Common.status 0x6986) ∷ []) not_initialized rejected_result
      ((accepted_result, settle_ok 0, refl), tt) (settle_no 1) refl

abbrev compact : Bytes
compact = replicate 65 1

plain_chunks :
    sign_get_chunks [] small_tree wallet_path
      (of_ℕ options)
      (9 ∷ [])
      (Sign.text (codes "arbitrary"))
    ≡ ok (
        record { type = 0; p2 = 0; buffer = serialized }
        ∷ record { type = 2; p2 = 0; buffer = 9 ∷ [] }
        ∷ [])
unfolding sign_get_chunks prepare_basic_chunks add_chunks set_last_type
plain_chunks = rw (wallet_written) refl

not_old_signing :
    is_old
      (get_version script [] (
        version_reply 12
        ∷ resolved status_ok
        ∷ resolved (compact ++ ((5 ∷ []) ++ status_ok))
        ∷ [])).1
    ≡ false
unfolding get_version parse_version compare_version
not_old_signing = refl

sign_implementation_signs_example :
    sign_implementation script [] [] small_tree wallet_path
      (9 ∷ [])
      (number (of_ℕ options))
      (Sign.text (codes "arbitrary"))
      (version_reply 12 ∷ resolved status_ok ∷ resolved (compact ++ ((5 ∷ []) ++ status_ok)) ∷ [])
    ≡ ([], ok (answer (signed compact (5 ∷ []))))
unfolding get_version
sign_implementation_signs_example =
    sign_implementation_signs script [] [] small_tree wallet_path (9 ∷ []) (number (of_ℕ options))
      (Sign.text (codes "arbitrary"))
      (version_reply 12 ∷ resolved status_ok ∷ resolved (compact ++ ((5 ∷ []) ++ status_ok)) ∷ [])
      (of_ℕ options) (record { type = 0; p2 = 0; buffer = serialized } ∷ [])
      (record { type = 2; p2 = 0; buffer = 9 ∷ [] }) compact (5 ∷ []) accepted_options
      not_old_signing plain_chunks ((accepted_result, settle_ok 0, refl), tt) refl refl

sign_implementation_old_example :
    sign_implementation script [] small_index small_tree wallet_path
      (9 ∷ [])
      (number (of_ℕ options))
      Sign.not_text
      (version_reply 11 ∷ [])
    ≡ ([], ok (refused bad_version_response))
sign_implementation_old_example =
    sign_implementation_old script [] small_index small_tree wallet_path (9 ∷ [])
      (number (of_ℕ options)) Sign.not_text (version_reply 11 ∷ []) (of_ℕ options) (told 11) 0 11 0
      accepted_options (asked 11) (told-IsVersion 11) (inr (refl, inl (omega arith)))

sign_implementation_unknown_example :
    sign_implementation script [] small_index small_tree wallet_path
      (9 ∷ [])
      (number (of_ℕ options))
      (Sign.text (codes "ffff"))
      (version_reply 12 ∷ [])
    ≡ ([], ok (answer not_initialized))
sign_implementation_unknown_example =
    sign_implementation_unknown script [] small_index small_tree wallet_path (9 ∷ [])
      (number (of_ℕ options)) (codes "ffff") (version_reply 12 ∷ []) (of_ℕ options) serialized
      accepted_options not_old wallet_written (refl, refl) unknown_key

set_slot_sends_example :
    (set_slot script []
      (of_ℕ 10)
      (to_hex (replicate 8 0xfe))
      wallet_path
      (number (of_ℕ options))
      (resolved status_ok ∷ [])).0
    ≡ []
set_slot_sends_example =
    set_slot_sends (hard 44) (hard 539) (hard 513) (soft 0) (soft 1) (replicate 8 0xfe) options 10
      script [] (resolved status_ok ∷ []) (omega arith) (omega arith) refl (omega arith)
      (omega arith)

process_get_slot-slot_bytes_example :
    process_get_slot (of_ℕ 10) (slot_bytes (replicate 8 0xfe) wallet 0xffff ++ status_ok)
    ≡ ok (record {
      return_code = some 0x9000;
      error_message = Common.error_code_to_string (some 0x9000);
      slot_idx = of_ℕ 10;
      account = to_hex (replicate 8 0xfe);
      path = path_text wallet;
      options = some (minus 1);
    })
process_get_slot-slot_bytes_example =
    process_get_slot-slot_bytes (hard 44) (hard 539) (hard 513) (soft 0) (soft 1) (replicate 8 0xfe)
      0xffff 10 (omega arith) refl (omega arith)

get_address_and_pub_key_reads_example :
    (get_address_and_pub_key script [] wallet_path
        (number (of_ℕ options))
        (resolved (key_response compact (codes "ab")) ∷ [])
      ≡ ([], ok (answer (key_info compact (codes "ab")))))
    × (show_address_and_pub_key script [] wallet_path
          (number (of_ℕ options))
          (resolved (key_response compact (codes "ab")) ∷ [])
        ≡ ([], ok (answer (key_info compact (codes "ab")))))
get_address_and_pub_key_reads_example =
    get_address_and_pub_key_reads (hard 44) (hard 539) (hard 513) (soft 0) (soft 1) options script
      [] (resolved (key_response compact (codes "ab")) ∷ []) compact (codes "ab") (omega arith)
      (omega arith) refl refl refl
