-- ===== src/Device/Transaction.antt =====
-- All the packets of a transaction with metadata, from the client to the device.
use app_flow.Prelude.{
  ◌≤◌, ◌≡◌, refl, sym, ap, ap₂, ◌∙◌, true, Option, List, [], ◌∷◌, ◌++◌, map, take, eq→==, Text,
  Bytes, All, length, ok,
}
use app_flow.Js.Buffer.{slice}
use app_flow.Js.Hex.{from_hex}
use app_flow.Js.Number.{JsNumber}
use app_flow.Path.{PathArg, serialize_path}
use app_flow.Path.Failures.{length-serialize_path}
use app_flow.Merkle.Tree.{Tree, hash}
use app_flow.Sign
use app_flow.Sign.{
  Chunk, LeafIndex, MerkleIndex, lookup, leaf, p2_unused, prepare_basic_chunks, proof_chunks,
  sign_get_chunks,
}
use app_flow.Sign.PayloadType
use app_flow.Sign.Chunks.{IsAdd, prepare_basic_chunks-IsBasic}
use app_flow.Sign.Workflows.{IsHash, sign_get_chunks_known}
use app_flow.Device.Stored.{init_stored}
use app_flow.Device.Chunks.{
  Buffering, Machine, Verdict, not_finished, finished_with_metadata, is_known_net, start, append,
  process_chunk,
}
use app_flow.Device.Chain.{process_chunks, verdicts}
use app_flow.Device.Accepts.{IsProved, packet, proof_chunks-process_chunks}

abbrev pub Takes : Buffering → Type 0
Takes b = (s : b.State) (bytes : Bytes) → (b.append s bytes).1 ≡ length bytes

module _ (b : Buffering) (sha256 : Bytes → Option Bytes) where
  process_init :
      (body : Bytes) (m : Machine b sha256)
      → length body ≡ 22
      → is_known_net (take 20 body) ≡ true
      → process_chunk b sha256 PayloadType.init 0 body m ≡ (
        record {
          buffer = b.initialize m.buffer;
          hd_path = take 20 body;
          crypto_options = slice body 20 22;
          stored = init_stored;
        },
        not_finished,
      )
  unfolding process_chunk start
  process_init body m size net = rw (size, net) refl

  process_add :
      (c : Chunk) (m : Machine b sha256)
      → Takes b
      → IsAdd c
      → process_chunk b sha256 c.type c.p2 c.buffer m
        ≡ (record m { buffer = (b.append m.buffer c.buffer).0 }, not_finished)
  unfolding process_chunk append
  process_add c m takes (type, unused) =
      rw (type, unused, takes m.buffer c.buffer, eq→== (length c.buffer) (length c.buffer) refl)
        refl

  abbrev run : List Chunk → Machine b sha256 → Machine b sha256
  run chunks m = process_chunks b sha256 (map packet chunks) m

  abbrev returned : List Chunk → Machine b sha256 → List Verdict
  returned chunks m = verdicts b sha256 (map packet chunks) m

  abbrev pub going_on : List Chunk → List Verdict
  going_on chunks = map (λ c. not_finished) chunks

  run-append : (cs ds : List Chunk) (m : Machine b sha256) → run (cs ++ ds) m ≡ run ds (run cs m)
  run-append [] ds m = refl
  run-append (c ∷ cs) ds m = run-append cs ds (process_chunk b sha256 c.type c.p2 c.buffer m).0

  returned-append :
      (cs ds : List Chunk) (m : Machine b sha256)
      → returned (cs ++ ds) m ≡ returned cs m ++ returned ds (run cs m)
  returned-append [] ds m = refl
  returned-append (c ∷ cs) ds m =
      let (m', v) = process_chunk b sha256 c.type c.p2 c.buffer m in
      ap (λ vs. v ∷ vs) (returned-append cs ds m')

  run_adds :
      (cs : List Chunk) (m : Machine b sha256)
      → Takes b
      → All IsAdd cs
      → (returned cs m ≡ going_on cs) × ((run cs m).stored ≡ m.stored)
  run_adds [] m takes h = (refl, refl)
  run_adds (c ∷ cs) m takes (h, hs) =
      let e = process_add c m takes h in
      let (vs, kept) =
        run_adds cs (record m { buffer = (b.append m.buffer c.buffer).0 }) takes hs in
      (
        ap (λ r. r.1 ∷ returned cs r.0) e ∙ ap (λ ws. not_finished ∷ ws) vs,
        ap (λ r. (run cs r.0).stored) e ∙ kept,
      )

  -- The basic packets are accepted, and leave no proof in progress.
  run_basic :
      (path message : Bytes) (m : Machine b sha256)
      → Takes b
      → length path ≡ 22
      → is_known_net (take 20 path) ≡ true
      → let basic = prepare_basic_chunks path message in
        (returned basic m ≡ going_on basic) × ((run basic m).stored ≡ init_stored)
  run_basic path message m takes size net =
      let made = prepare_basic_chunks-IsBasic path message in
      let e = process_init path m size net in
      let (vs, kept) =
        run_adds made.adds (process_chunk b sha256 PayloadType.init 0 path m).0 takes
          made.all_add in
      (
        ap (λ cs. returned cs m) made.shape
            ∙ ap₂ (λ v ws. v ∷ ws) (ap (λ r. r.1) e) vs
            ∙ ap going_on (sym made.shape),
        ap (λ cs. (run cs m).stored) made.shape ∙ kept ∙ ap (λ r. r.0.stored) e,
      )

  -- For a script hash that the index has, on whose leaf's way each hash is right, the device accepts
  -- every packet that the client makes, the last as the end of a transaction with metadata, and has the
  -- leaf's metadata in store with a proof that ends in the tree's hash; whatever it was doing before.
  pub sign_get_chunks-process_chunks :
      (merkle_index : MerkleIndex) (t : Tree) (path : PathArg) (options : JsNumber)
      (message : Bytes) (extra : Text) (serialized : Bytes) (at : LeafIndex) (metadata : Text)
      (m : Machine b sha256)
      → serialize_path path options ≡ ok serialized
      → is_known_net (take 20 serialized) ≡ true
      → IsHash extra
      → lookup (take 16 extra) merkle_index ≡ leaf at
      → IsProved sha256 t at metadata
      → length (from_hex metadata) ≤ 255
      → Takes b
      → let basic = prepare_basic_chunks serialized message in
        (proof : List Chunk) × (sign_get_chunks merkle_index t path options message
            (Sign.text extra)
          ≡ ok (basic ++ proof))
        × (verdicts b sha256 (map packet (basic ++ proof)) m
            ≡ going_on basic
              ++ not_finished ∷ not_finished ∷ not_finished ∷ not_finished ∷ finished_with_metadata
                ∷ [])
        × ((process_chunks b sha256 (map packet (basic ++ proof)) m).stored
            ≡ record { metadata = from_hex metadata; level = 5; hash = from_hex (hash t) })
  sign_get_chunks-process_chunks merkle_index t path options message extra serialized at metadata m
        hs net hx hl proved fits takes =
      let basic = prepare_basic_chunks serialized message in
      let (vs, kept) =
        run_basic serialized message m takes (length-serialize_path path options serialized hs)
          net in
      let (proof, made, ws, after) =
        proof_chunks-process_chunks b sha256 t at metadata (run basic m) proved fits
          (ap (λ s. s.level) kept) in
      (
        proof,
        sign_get_chunks_known merkle_index t path options message extra serialized at proof hs hx hl
            made,
        returned-append basic proof m ∙ ap₂ (λ us zs. us ++ zs) vs ws,
        ap (λ n. n.stored) (run-append basic proof m ∙ after),
      )
