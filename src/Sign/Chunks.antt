-- ===== src/Sign/Chunks.antt =====
-- `prepareBasicChunks` cuts the message into full packets and a rest.
use app_flow.Prelude.{
  ℕ, zero, suc, ◌+◌, ◌-◌, ◌≤◌, ◌<◌, ◌≡◌, refl, sym, ap, ◌∙◌, List, [], ◌∷◌, ◌++◌, arith, Bytes, All,
  length, take, drop, take-append-drop, length-take, length-drop, drop-drop, drop-nil_of_le,
  lt-cases, inl, inr, ap₂, min,
}
use app_flow.Js.Buffer.{slice}
use app_flow.Sign.PayloadType
use app_flow.Sign.{Chunk, chunk_size, p2_unused, add_chunks, prepare_basic_chunks}

-- The bytes of the packets, one after the other.
abbrev pub payload : List Chunk → Bytes
payload [] = []
payload (c ∷ cs) = c.buffer ++ payload cs

-- Every packet but the last is full, and the last is not empty.
abbrev pub IsFilled : List Chunk → Type 0
IsFilled [] = Unit
IsFilled (c ∷ []) = (0 < length c.buffer) × (length c.buffer ≤ chunk_size)
IsFilled (c ∷ d ∷ cs) = (length c.buffer ≡ chunk_size) × IsFilled (d ∷ cs)

abbrev pub IsAdd : Chunk → Type 0
IsAdd c = (c.type ≡ PayloadType.add) × (c.p2 ≡ p2_unused)

pub add_chunks_end :
    (fuel : ℕ) (buffer : Bytes) (i : ℕ) → length buffer ≤ i → add_chunks fuel buffer i ≡ []
unfolding add_chunks
add_chunks_end zero buffer i h = refl
add_chunks_end (suc fuel) buffer i h = ground arith

-- The packet at `i`.
abbrev pub chunk_at : Bytes → ℕ → Chunk
chunk_at buffer i = record {
  type = PayloadType.add;
  p2 = p2_unused;
  buffer = slice buffer i (i + chunk_size);
}

pub add_chunks_step :
    (fuel : ℕ) (buffer : Bytes) (i : ℕ)
    → i < length buffer
    → add_chunks (suc fuel) buffer i ≡ chunk_at buffer i ∷ add_chunks fuel buffer (i + chunk_size)
unfolding add_chunks
add_chunks_step fuel buffer i h = ground arith

slice-take :
    (buffer : Bytes) (i : ℕ) → slice buffer i (i + chunk_size) ≡ take chunk_size (drop i buffer)
slice-take buffer i =
    let e : i + chunk_size - i ≡ chunk_size = omega arith in ap (λ k. take k (drop i buffer)) e

length-chunk_at :
    (buffer : Bytes) (i : ℕ)
    → length (chunk_at buffer i).buffer ≡ min chunk_size (length buffer - i)
length-chunk_at buffer i =
    ap length (slice-take buffer i)
    ∙ length-take chunk_size (drop i buffer)
    ∙ ap (min chunk_size) (length-drop i buffer)

-- The packets from index `i` on carry the bytes from there on.
payload-add_chunks :
    (fuel : ℕ) (buffer : Bytes) (i : ℕ)
    → length buffer < fuel + i
    → payload (add_chunks fuel buffer i) ≡ drop i buffer
payload-add_chunks zero buffer i h =
    unfold add_chunks in sym (drop-nil_of_le i buffer (omega arith))
payload-add_chunks (suc fuel) buffer i h = elim (lt-cases i (length buffer)) [
  | inl more ↦ rw (add_chunks_step fuel buffer i more) (
      ap₂ (λ s t. s ++ t) (slice-take buffer i)
        (payload-add_chunks fuel buffer (i + chunk_size) (omega arith)
          ∙ sym (drop-drop chunk_size i buffer))
      ∙ take-append-drop chunk_size (drop i buffer))
  | inr done ↦ rw (add_chunks_end (suc fuel) buffer i done) (sym (drop-nil_of_le i buffer done))
]

last_chunk :
    (fuel : ℕ) (buffer : Bytes) (i : ℕ)
    → i < length buffer
    → length buffer ≤ i + chunk_size
    → IsFilled (add_chunks (suc fuel) buffer i)
last_chunk fuel buffer i more few =
    rw (add_chunks_step fuel buffer i more, add_chunks_end fuel buffer (i + chunk_size) few)
      (omega (arith, length-chunk_at buffer i), omega (arith, length-chunk_at buffer i))

IsFilled-add_chunks :
    (fuel : ℕ) (buffer : Bytes) (i : ℕ)
    → length buffer < fuel + i
    → IsFilled (add_chunks fuel buffer i)
IsFilled-add_chunks zero buffer i h = unfold add_chunks in tt
IsFilled-add_chunks (suc zero) buffer i h = rw (add_chunks_end 1 buffer i (omega arith)) tt
IsFilled-add_chunks (suc (suc fuel)) buffer i h = elim (lt-cases i (length buffer)) [
  | inr done ↦ rw (add_chunks_end (suc (suc fuel)) buffer i done) tt
  | inl more ↦ elim (lt-cases (i + chunk_size) (length buffer)) [
    | inr few ↦ last_chunk (suc fuel) buffer i more few
    | inl many ↦
        let rest = IsFilled-add_chunks (suc fuel) buffer (i + chunk_size) (omega arith) in
        let full : length (chunk_at buffer i).buffer ≡ chunk_size =
          omega (arith, length-chunk_at buffer i) in
        rw
          (
            add_chunks_step (suc fuel) buffer i more,
            add_chunks_step fuel buffer (i + chunk_size) many,
          )
          (full, rw (add_chunks_step fuel buffer (i + chunk_size) many) at rest)
  ]
]

IsAdd-add_chunks : (fuel : ℕ) (buffer : Bytes) (i : ℕ) → All IsAdd (add_chunks fuel buffer i)
IsAdd-add_chunks zero buffer i = unfold add_chunks in tt
IsAdd-add_chunks (suc fuel) buffer i = elim (lt-cases i (length buffer)) [
  | inr done ↦ rw (add_chunks_end (suc fuel) buffer i done) tt
  | inl more ↦
      rw (add_chunks_step fuel buffer i more)
        ((refl, refl), IsAdd-add_chunks fuel buffer (i + chunk_size))
]

-- What `prepareBasicChunks` makes of a path and a message.
pub record IsBasic (path message : Bytes) (chunks : List Chunk) : Type 0 where
  pub adds : List Chunk
  pub shape : chunks ≡ record { type = PayloadType.init; p2 = p2_unused; buffer = path } ∷ adds
  pub all_add : All IsAdd adds
  pub filled : IsFilled adds
  pub complete : payload adds ≡ message

-- The path comes first in a packet of its own; the message follows in full packets of type ADD and a
-- rest that is not empty.
pub prepare_basic_chunks-IsBasic :
    (path message : Bytes) → IsBasic path message (prepare_basic_chunks path message)
unfolding prepare_basic_chunks
prepare_basic_chunks-IsBasic path message = record {
  adds = add_chunks (suc (length message)) message 0;
  shape = refl;
  all_add = IsAdd-add_chunks (suc (length message)) message 0;
  filled = IsFilled-add_chunks (suc (length message)) message 0 (omega arith);
  complete = payload-add_chunks (suc (length message)) message 0 (omega arith);
}
