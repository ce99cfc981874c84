-- ===== src/Device/Chain.antt =====
-- What an open gate means: the metadata in store has a Merkle proof up to the root.
use app_flow.Prelude.{
  ℕ, zero, suc, ◌+◌, ◌≤◌, subst, ◌≡◌, refl, sym, true, Option, none, some, List, [], ◌∷◌, arith,
  Bytes, text_eq, text_eq→eq, length, All, All-imp, ◌⊎◌, inl, inr, ◌==◌, and-true, ==_iff,
}
use app_flow.Device.Stored.{
  Stored, init_stored, merkle_tree_root, ParserStatus, parser_ok, metadata_error, unexpected_error,
  has_hash, store_tx_metadata, validate_level, is_open,
}
use app_flow.Device.Hashes.{Contains, has_hash-Contains}
use app_flow.Device.Chunks.{Buffering, Machine, Verdict, start, append, keep, process_chunk}

module _ (sha256 : Bytes → Option Bytes) where
  -- A proof of `n` levels that ends in `hash`: each list of hashes has the hash below it.
  abbrev pub Chain : Bytes → ℕ → Bytes → Type 0
  Chain metadata zero hash = Unit
  Chain metadata (suc zero) hash = sha256 metadata ≡ some hash
  Chain metadata (suc (suc n)) hash =
      (below hashes : Bytes) × Chain metadata (suc n) below
      × Contains hashes below
      × (sha256 hashes ≡ some hash)

  stored_digest :
      (body : Bytes) (s : Stored) (digest : Option Bytes)
      → sha256 body ≡ digest
      → (store_tx_metadata sha256 body s).1 ≡ parser_ok
      → (h : Bytes) × (digest ≡ some h)
        × ((store_tx_metadata sha256 body s).0 ≡ record { metadata = body; level = 1; hash = h })
  unfolding store_tx_metadata
  stored_digest body s none e ok = absurd (ground arith)
  stored_digest body s (some h) e ok = (h, refl, ground arith)

  validated_digest :
      (hashes : Bytes) (s : Stored) (digest : Option Bytes)
      → sha256 hashes ≡ digest
      → (validate_level sha256 hashes s).1 ≡ parser_ok
      → (h : Bytes) × (digest ≡ some h)
        × ((validate_level sha256 hashes s).0
            ≡ record { metadata = s.metadata; level = s.level + 1; hash = h })
        × (1 ≤ s.level)
        × (has_hash (length hashes) hashes s.hash ≡ true)
  unfolding validate_level
  validated_digest hashes s none e ok = absurd (ground arith)
  validated_digest hashes s (some h) e ok = (h, refl, ground arith, ground arith, ground arith)

module _ (sha256 : Bytes → Option Bytes) (Sent : Bytes → Type 0) where
  -- A proof whose metadata and lists of hashes are lists of bytes of a kind.
  abbrev pub SentChain : Bytes → ℕ → Bytes → Type 0
  SentChain metadata zero hash = Unit
  SentChain metadata (suc zero) hash = Sent metadata × (sha256 metadata ≡ some hash)
  SentChain metadata (suc (suc n)) hash =
      (below hashes : Bytes) × SentChain metadata (suc n) below
      × Contains hashes below
      × Sent hashes
      × (sha256 hashes ≡ some hash)

  Chain-SentChain :
      (metadata : Bytes) (n : ℕ) (hash : Bytes)
      → SentChain metadata n hash
      → Chain sha256 metadata n hash
  Chain-SentChain metadata zero hash h = tt
  Chain-SentChain metadata (suc zero) hash (_, e) = e
  Chain-SentChain metadata (suc (suc n)) hash (below, hashes, chain, c, _, e) =
      (below, hashes, Chain-SentChain metadata (suc n) below chain, c, e)

  abbrev IsChained : Stored → Type 0
  IsChained s = SentChain s.metadata s.level s.hash

  store_tx_metadata-IsChained :
      (body : Bytes) (s : Stored)
      → Sent body
      → (store_tx_metadata sha256 body s).1 ≡ parser_ok
      → IsChained (store_tx_metadata sha256 body s).0
  store_tx_metadata-IsChained body s sent ok =
      let (h, e, same) = stored_digest sha256 body s (sha256 body) refl ok in
      subst IsChained (sym same) (sent, e)

  next_level :
      (metadata below hashes hash : Bytes) (level : ℕ)
      → 1 ≤ level
      → SentChain metadata level below
      → Contains hashes below
      → Sent hashes
      → sha256 hashes ≡ some hash
      → SentChain metadata (level + 1) hash
  next_level metadata below hashes hash zero one chain c sent e = absurd (omega arith)
  next_level metadata below hashes hash (suc n) one chain c sent e =
      let two : suc (suc n) ≡ suc n + 1 = omega arith in
      subst (λ k. SentChain metadata k hash) two (below, hashes, chain, c, sent, e)

  validate_level-IsChained :
      (hashes : Bytes) (s : Stored)
      → Sent hashes
      → IsChained s
      → (validate_level sha256 hashes s).1 ≡ parser_ok
      → IsChained (validate_level sha256 hashes s).0
  validate_level-IsChained hashes s sent chain ok =
      let (h, e, same, one, found) = validated_digest sha256 hashes s (sha256 hashes) refl ok in
      subst IsChained (sym same) (
        next_level s.metadata s.hash hashes h s.level one chain
          (has_hash-Contains (length hashes) hashes s.hash found) sent e)

module _ (b : Buffering) (sha256 : Bytes → Option Bytes) where
  -- The machine after packets, each with its P1, P2 and body.
  abbrev pub process_chunks : List (ℕ × ℕ × Bytes) → Machine b sha256 → Machine b sha256
  process_chunks [] m = m
  process_chunks ((payload_type, p2, body) ∷ rest) m =
      process_chunks rest (process_chunk b sha256 payload_type p2 body m).0

  -- What the packets return, in order.
  abbrev pub verdicts : List (ℕ × ℕ × Bytes) → Machine b sha256 → List Verdict
  verdicts [] m = []
  verdicts ((payload_type, p2, body) ∷ rest) m =
      let (m', verdict) = process_chunk b sha256 payload_type p2 body m in
      verdict ∷ verdicts rest m'

module _ (b : Buffering) (sha256 : Bytes → Option Bytes) (Sent : Bytes → Type 0) where
  HasChain : Machine b sha256 × Verdict → Type 0
  HasChain (m, v) = IsChained sha256 Sent m.stored

  has_chain :
      (m : Machine b sha256) (v : Verdict) → IsChained sha256 Sent m.stored → HasChain (m, v)
  unfolding HasChain
  has_chain m v h = h

  chain_of : (r : Machine b sha256 × Verdict) → HasChain r → IsChained sha256 Sent r.0.stored
  unfolding HasChain
  chain_of (m, v) h = h

  keep-HasChain :
      (v : Verdict) (m : Machine b sha256) (r : Stored × ParserStatus)
      → (r.1 ≡ parser_ok → IsChained sha256 Sent r.0)
      → HasChain (keep b sha256 v m r)
  keep-HasChain v m (s, parser_ok) h = has_chain _ _ (h refl)
  keep-HasChain v m (s, metadata_error) h = has_chain _ _ tt
  keep-HasChain v m (s, unexpected_error) h = has_chain _ _ tt

  start-HasChain :
      (body : Bytes) (m : Machine b sha256)
      → IsChained sha256 Sent m.stored
      → HasChain (start b sha256 body m)
  unfolding start
  start-HasChain body m h = grind (arith, has_chain)

  append-HasChain :
      (v : Verdict) (body : Bytes) (m : Machine b sha256)
      → IsChained sha256 Sent m.stored
      → HasChain (append b sha256 v body m)
  unfolding append
  append-HasChain v body m h = has_chain _ _ h

  process_chunk-HasChain :
      (payload_type p2 : ℕ) (body : Bytes) (m : Machine b sha256)
      → Sent body
      → IsChained sha256 Sent m.stored
      → HasChain (process_chunk b sha256 payload_type p2 body m)
  unfolding process_chunk
  process_chunk-HasChain payload_type p2 body m sent h =
      let unchanged = has_chain m in
      let started = start-HasChain body (record m { buffer = b.initialize m.buffer }) h in
      let stored = λ (v : Verdict).
        keep-HasChain v m (store_tx_metadata sha256 body m.stored)
          (store_tx_metadata-IsChained sha256 Sent body m.stored sent) in
      let level = λ (v : Verdict).
        keep-HasChain v m (validate_level sha256 body m.stored)
          (validate_level-IsChained sha256 Sent body m.stored sent h) in
      let appended = λ (v : Verdict). append-HasChain v body m h in
      grind (arith, unchanged, started, stored, level, appended)

  process_chunks-SentChain :
      (packets : List (ℕ × ℕ × Bytes)) (m : Machine b sha256)
      → All (λ p. Sent p.2) packets
      → IsChained sha256 Sent m.stored
      → IsChained sha256 Sent (process_chunks b sha256 packets m).stored
  process_chunks-SentChain [] m sent h = h
  process_chunks-SentChain ((payload_type, p2, body) ∷ rest) m (sent, more) h =
      process_chunks-SentChain rest (process_chunk b sha256 payload_type p2 body m).0 more
        (chain_of _ (process_chunk-HasChain payload_type p2 body m sent h))

-- The bytes are the body of one of the packets.
abbrev pub IsSent : List (ℕ × ℕ × Bytes) → Bytes → Type 0
IsSent [] bytes = ⊥
IsSent (p ∷ rest) bytes = (bytes ≡ p.2) ⊎ IsSent rest bytes

All-IsSent : (packets : List (ℕ × ℕ × Bytes)) → All (λ p. IsSent packets p.2) packets
All-IsSent [] = tt
All-IsSent (p ∷ rest) = (
  inl refl,
  All-imp (λ q. IsSent rest q.2) (λ q. IsSent (p ∷ rest) q.2) (λ q h. inr h) rest (All-IsSent rest),
)

module _ (b : Buffering) (sha256 : Bytes → Option Bytes) where
  -- The proof behind an open gate is made of the bodies of the packets.
  pub process_chunks-open-IsSent :
      (packets : List (ℕ × ℕ × Bytes)) (m : Machine b sha256)
      → m.stored ≡ init_stored
      → is_open (process_chunks b sha256 packets m).stored ≡ true
      → SentChain sha256
          (IsSent packets)
          (process_chunks b sha256 packets m).stored.metadata
          5
          merkle_tree_root
  process_chunks-open-IsSent packets m empty opened =
      let s = (process_chunks b sha256 packets m).stored in
      let chain =
        process_chunks-SentChain b sha256 (IsSent packets) packets m (All-IsSent packets) (
          subst (λ s. SentChain sha256 (IsSent packets) s.metadata s.level s.hash) (sym empty)
            tt) in
      let (level, root) = and-true (s.level == 5) (text_eq s.hash merkle_tree_root) opened in
      subst (SentChain sha256 (IsSent packets) s.metadata 5)
        (text_eq→eq s.hash merkle_tree_root root)
        (subst (λ n. SentChain sha256 (IsSent packets) s.metadata n s.hash)
          ((==_iff s.level 5).0 level) chain)

  -- Whatever packets a machine with an empty store is sent: if its gate is open then, the metadata in
  -- store has a Merkle proof of four levels that ends in the root.
  pub process_chunks-open :
      (packets : List (ℕ × ℕ × Bytes)) (m : Machine b sha256)
      → m.stored ≡ init_stored
      → is_open (process_chunks b sha256 packets m).stored ≡ true
      → Chain sha256 (process_chunks b sha256 packets m).stored.metadata 5 merkle_tree_root
  process_chunks-open packets m empty opened =
      Chain-SentChain sha256 (IsSent packets) _ 5 merkle_tree_root
        (process_chunks-open-IsSent packets m empty opened)
