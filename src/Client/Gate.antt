-- ===== src/Client/Gate.antt =====
-- What `_signImplementation` does before it sends a packet of the message.
use app_flow.Prelude.{ℕ, ◌≡◌, ◌↔◌, refl, ap, ◌∙◌, true, false, [], Text, Bytes, take, ok, arith}
use app_flow.Js.Number.{JsNumber}
use app_flow.Path.{PathArg, OptionsArg, validate_crypto_options, serialize_path}
use app_flow.Merkle.Tree.{Tree}
use app_flow.Common.Version.{
  VersionInfo, version, IsVersion, IsBefore, compare_version, compare_version-less_iff, less, same,
  greater, Comparison,
}
use app_flow.Sign.{ExtraInfo, text, MerkleIndex, lookup, undefined}
use app_flow.Sign.Workflows.{IsHash, sign_get_chunks_unknown}
use app_flow.Client.Ins
use app_flow.Client.Transport.{Transport}
use app_flow.Client.Payloads.{
  answer, refused, plain_apdu, not_initialized, bad_version_response, is_old,
}
use app_flow.Client.App.{get_version, sign_loop, sign_implementation}

less_only :
    (c : Comparison)
    → ((elim c [ less ↦ true | same ↦ false | greater ↦ false ]) ≡ true) ↔ (c ≡ less)
less_only less = (λ h. refl, λ h. refl)
less_only same = (λ h. absurd (ground arith), λ h. absurd (ground arith))
less_only greater = (λ h. absurd (ground arith), λ h. absurd (ground arith))

-- The gate is closed exactly to versions before 0.12.0, where the device has told its version.
pub is_old_iff :
    (v : VersionInfo) (a b c : ℕ)
    → IsVersion v a b c
    → (is_old (version v) ≡ true) ↔ IsBefore a b c 0 12 0
is_old_iff v a b c h =
    let gate = less_only (compare_version (version v) 0 12 0) in
    let order = compare_version-less_iff v a b c 0 12 0 h in
    (λ old. order.0 (gate.0 old), λ before. gate.1 (order.1 before))

module _ (t : Transport) (engine_text : Text) (merkle_index : MerkleIndex)
    (merkle_tree : Tree) where
  abbrev sent_version : t.State → t.State
  sent_version s = (t.send s (plain_apdu Ins.get_version [])).0

  -- An app before 0.12.0 is sent nothing but the query of its version, and the call resolves to code 4.
  pub sign_implementation_old :
      (path : PathArg) (message : Bytes) (crypto_options : OptionsArg) (extra : ExtraInfo)
      (s : t.State) (options : JsNumber) (v : VersionInfo) (a b c : ℕ)
      → validate_crypto_options crypto_options ≡ ok options
      → (get_version t engine_text s).1 ≡ version v
      → IsVersion v a b c
      → IsBefore a b c 0 12 0
      → sign_implementation t engine_text merkle_index merkle_tree path message crypto_options extra
          s
        ≡ (sent_version s, ok (refused bad_version_response))
  sign_implementation_old path message crypto_options extra s options v a b c hv hg hr hb =
      let closed : is_old (get_version t engine_text s).1 ≡ true =
        ap is_old hg ∙ (is_old_iff v a b c hr).1 hb in
      unfold sign_implementation in rw (hv, closed) (unfold get_version in refl)

  -- A script hash that the index lacks: only the version is asked, no packet of the transaction is
  -- sent, and the call resolves to code 0xffff.
  pub sign_implementation_unknown :
      (path : PathArg) (message : Bytes) (crypto_options : OptionsArg) (extra : Text) (s : t.State)
      (options : JsNumber) (serialized : Bytes)
      → validate_crypto_options crypto_options ≡ ok options
      → is_old (get_version t engine_text s).1 ≡ false
      → serialize_path path options ≡ ok serialized
      → IsHash extra
      → lookup (take 16 extra) merkle_index ≡ undefined
      → sign_implementation t engine_text merkle_index merkle_tree path message crypto_options
          (text extra)
          s
        ≡ (sent_version s, ok (answer not_initialized))
  sign_implementation_unknown path message crypto_options extra s options serialized hv ho hp hx
        hl =
      unfold sign_implementation in
      rw
        (
          hv,
          ho,
          sign_get_chunks_unknown merkle_index merkle_tree path options message extra serialized hp
              hx hl,
        )
        (unfold get_version sign_loop in refl)
