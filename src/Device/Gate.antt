-- ===== src/Device/Gate.antt =====
-- The shipped tree and the root that the device knows.
use app_flow.Prelude.{◌≤◌, ◌≡◌, refl, ap, ◌∙◌, true, Option, List, map, Text, Bytes, length, ok}
use app_flow.Js.Hex.{from_hex, hex_value}
use app_flow.Merkle.Tree.{hash}
use app_flow.Sign.{Chunk, LeafIndex, proof_chunks}
use app_flow.Shipped.Shape.{merkle_tree}
use app_flow.Device.Stored.{is_open}
use app_flow.Device.Chunks.{Buffering, Machine}
use app_flow.Device.Chain.{process_chunks}
use app_flow.Device.Accepts.{IsProved, packet, proof_chunks-process_chunks}

root_is_open :
    (metadata : Bytes)
    → is_open (record { metadata = metadata; level = 5; hash = from_hex (hash merkle_tree) }) ≡ true
unfolding from_hex hex_value
root_is_open metadata = refl

-- The client's packets for a leaf of the shipped tree open the device's gate, with the leaf's metadata
-- in store, if the hashes on the way to the leaf are right and no proof is in progress.
pub process_chunks-shipped :
    (b : Buffering) (sha256 : Bytes → Option Bytes) (at : LeafIndex) (metadata : Text)
    (m : Machine b sha256)
    → IsProved sha256 merkle_tree at metadata
    → length (from_hex metadata) ≤ 255
    → m.stored.level ≡ 0
    → (chunks : List Chunk) × (proof_chunks merkle_tree at ≡ ok chunks)
      × (is_open (process_chunks b sha256 (map packet chunks) m).stored ≡ true)
      × ((process_chunks b sha256 (map packet chunks) m).stored.metadata ≡ from_hex metadata)
process_chunks-shipped b sha256 at metadata m proved fits empty =
    let (chunks, made, _, after) =
      proof_chunks-process_chunks b sha256 merkle_tree at metadata m proved fits empty in
    (
      chunks,
      made,
      ap (λ n. is_open n.stored) after ∙ root_is_open (from_hex metadata),
      ap (λ n. n.stored.metadata) after,
    )
