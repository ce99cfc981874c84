-- ===== src/Tests/Signs.antt =====
-- Packets: runs over a small tree, and the theorems of Sign at concrete inputs.
use app_flow.Prelude.{◌≡◌, refl, inl, inr, List, [], ◌∷◌, Text, codes, replicate, take, ok}
use app_flow.Js.Number.{of_ℕ}
use app_flow.Js.Hex.{from_hex, hex_value}
use app_flow.Tests.Samples.{
  options, wallet_path, serialized, wallet_written, small_tree, small_index,
}
use app_flow.Sign
use app_flow.Sign.PayloadType
use app_flow.Sign.{
  Chunk, p2_unused, prepare_basic_chunks, add_chunks, set_last_type, MerkleIndex, LeafIndex, leaf,
  undefined, inherited, lookup, proof_chunks, sign_get_chunks, type_error,
}
use app_flow.Sign.Chunks.{IsBasic, prepare_basic_chunks-IsBasic}
use app_flow.Sign.Workflows.{IsPlain, sign_get_chunks-IsPlain, sign_get_chunks_empty}
use app_flow.Sign.Rounds.{prepare_basic_chunks-add_chunks}
use app_flow.Sign.{add_chunks}
use app_flow.Prelude.{length, arith}

abbrev pub known : Text
known = codes "0123456789abcdef00"

long_message :
    prepare_basic_chunks [] (replicate 251 7)
    ≡ record { type = 0; p2 = 0; buffer = [] }
      ∷ record { type = 1; p2 = 0; buffer = replicate 250 7 }
      ∷ record { type = 1; p2 = 0; buffer = 7 ∷ [] }
      ∷ []
unfolding prepare_basic_chunks add_chunks
long_message = refl

inherited_key : lookup (codes "toString") small_index ≡ inherited
unfolding lookup
inherited_key = refl

pub small_proof :
    proof_chunks small_tree (record { i0 = 0; i1 = 0; i2 = 0; i3 = 0 })
    ≡ ok (
        record { type = 3; p2 = 0; buffer = 1 ∷ 2 ∷ [] }
        ∷ record { type = 4; p2 = 0; buffer = 0xaa ∷ [] }
        ∷ record { type = 4; p2 = 0; buffer = 0xbb ∷ [] }
        ∷ record { type = 4; p2 = 0; buffer = 0xcc ∷ [] }
        ∷ record { type = 5; p2 = 0; buffer = 0xdd ∷ [] }
        ∷ [])
unfolding proof_chunks from_hex hex_value
small_proof = refl

pub known_key :
    lookup (take 16 known) small_index ≡ leaf (record { i0 = 0; i1 = 0; i2 = 0; i3 = 0 })
unfolding lookup
known_key = refl

prepare_basic_chunks-IsBasic_example :
    IsBasic (1 ∷ []) (2 ∷ 3 ∷ []) (prepare_basic_chunks (1 ∷ []) (2 ∷ 3 ∷ []))
prepare_basic_chunks-IsBasic_example = prepare_basic_chunks-IsBasic (1 ∷ []) (2 ∷ 3 ∷ [])

prepare_basic_chunks-add_chunks_example :
    (add_chunks 1 (2 ∷ 3 ∷ []) 0 ≡ add_chunks 3 (2 ∷ 3 ∷ []) 0)
    × (length (prepare_basic_chunks (1 ∷ []) (2 ∷ 3 ∷ [])) ≡ 2)
prepare_basic_chunks-add_chunks_example =
    prepare_basic_chunks-add_chunks (1 ∷ []) (2 ∷ 3 ∷ []) 1 (omega arith)

sign_get_chunks-IsPlain_example :
    (chunks : List Chunk) × (sign_get_chunks small_index small_tree wallet_path
        (of_ℕ options)
        (1 ∷ 2 ∷ [])
        (Sign.text (codes "Sign message"))
      ≡ ok chunks)
    × IsPlain PayloadType.message_last serialized (1 ∷ 2 ∷ []) chunks
sign_get_chunks-IsPlain_example =
    sign_get_chunks-IsPlain small_index small_tree wallet_path (of_ℕ options) (1 ∷ 2 ∷ [])
      (codes "Sign message") PayloadType.message_last serialized wallet_written (inl (refl, refl))
      (cc)

sign_get_chunks_empty_example :
    sign_get_chunks small_index small_tree wallet_path
      (of_ℕ options)
      []
      (Sign.text (codes "arbitrary"))
    ≡ ok (record { type = PayloadType.last; p2 = p2_unused; buffer = serialized } ∷ [])
sign_get_chunks_empty_example =
    sign_get_chunks_empty small_index small_tree wallet_path (of_ℕ options) (codes "arbitrary")
      PayloadType.last serialized wallet_written (inr (refl, refl))
