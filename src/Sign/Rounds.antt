-- ===== src/Sign/Rounds.antt =====
-- The loop of `prepareBasicChunks` ends, after a number of rounds that the message's length gives.
use app_flow.Prelude.{
  ℕ, zero, suc, ◌+◌, ◌-◌, ◌*◌, ◌/◌, ◌≤◌, ◌≡◌, sym, ap, ◌∙◌, ◌∷◌, arith, Bytes, length, lt-cases,
  inl, inr,
}
use app_flow.Sign.{chunk_size, add_chunks, prepare_basic_chunks}
use app_flow.Sign.Chunks.{add_chunks_end, add_chunks_step, chunk_at}

-- Enough fuel from `i` on.
abbrev IsEnough : ℕ → Bytes → ℕ → Type 0
IsEnough fuel buffer i = length buffer ≤ chunk_size * fuel + i

add_chunks_fuel :
    (fuel more : ℕ) (buffer : Bytes) (i : ℕ)
    → IsEnough fuel buffer i
    → IsEnough more buffer i
    → add_chunks fuel buffer i ≡ add_chunks more buffer i
add_chunks_fuel zero more buffer i h k =
    add_chunks_end 0 buffer i (omega arith) ∙ sym (add_chunks_end more buffer i (omega arith))
add_chunks_fuel (suc fuel) zero buffer i h k =
    add_chunks_end (suc fuel) buffer i (omega arith) ∙ sym (add_chunks_end 0 buffer i (omega arith))
add_chunks_fuel (suc fuel) (suc more) buffer i h k = elim (lt-cases i (length buffer)) [
  | inr done ↦
      add_chunks_end (suc fuel) buffer i done ∙ sym (add_chunks_end (suc more) buffer i done)
  | inl goes_on ↦
      add_chunks_step fuel buffer i goes_on
      ∙ ap (λ cs. chunk_at buffer i ∷ cs)
          (add_chunks_fuel fuel more buffer (i + chunk_size) (omega arith) (omega arith))
      ∙ sym (add_chunks_step more buffer i goes_on)
]

length-add_chunks :
    (fuel : ℕ) (buffer : Bytes) (i : ℕ)
    → IsEnough fuel buffer i
    → length (add_chunks fuel buffer i) ≡ (length buffer - i + 249) / 250
length-add_chunks zero buffer i h =
    ap length (add_chunks_end 0 buffer i (omega arith)) ∙ omega arith
length-add_chunks (suc fuel) buffer i h = elim (lt-cases i (length buffer)) [
  | inr done ↦ ap length (add_chunks_end (suc fuel) buffer i done) ∙ omega arith
  | inl goes_on ↦
      ap length (add_chunks_step fuel buffer i goes_on)
      ∙ ap suc (length-add_chunks fuel buffer (i + chunk_size) (omega arith))
      ∙ omega arith
]

-- The loop over the message ends by itself in as many rounds as the message has pieces of 250 bytes, the
-- last of which may be shorter: more rounds change nothing. The packets are one more, for the path.
pub prepare_basic_chunks-add_chunks :
    (path message : Bytes) (rounds : ℕ)
    → (length message + 249) / 250 ≤ rounds
    → (add_chunks rounds message 0 ≡ add_chunks (suc (length message)) message 0)
      × (length (prepare_basic_chunks path message) ≡ 1 + (length message + 249) / 250)
unfolding prepare_basic_chunks
prepare_basic_chunks-add_chunks path message rounds h = (
  add_chunks_fuel rounds (suc (length message)) message 0 (omega arith) (omega arith),
  ap suc (length-add_chunks (suc (length message)) message 0 (omega arith)) ∙ omega arith,
)
