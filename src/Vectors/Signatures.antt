-- ===== src/Vectors/Signatures.antt =====
-- The signature of `baseEnvelopeTx` reaches no test case.
use app_flow.Prelude.{
  ap₂, ℕ, ◌+◌, ◌≡◌, refl, ap, sym, ◌∙◌, true, Option, none, some, List, [], ◌∷◌, ◌++◌, Text,
}
use app_flow.Merkle.Tree.{Tree}
use app_flow.Sign.{MerkleIndex}
use app_flow.Vectors.Data.{
  Network, testnet, mainnet, Signature, Transaction, Partial, Libraries, Sample,
}
use app_flow.Vectors.Merge.{combine_merge}
use app_flow.Vectors.Cases.{
  Draft, Testcase, base_payload_tx, base_envelope_tx, build_payload_tx, build_envelope_tx,
  without_sigs, with_element, element_of, create_payload_testcase, create_envelope_testcase,
  drafts_from, manifest_cases, payload_drafts, envelope_drafts, map_all, manifest_payload_cases,
  manifest_envelope_cases,
}

module _ (lib : Libraries) where
  open lib use {Value}

  -- `merge` keeps the member `payloadSigs` of the target, which the source lacks.
  abbrev pub KeepsSigs : Type 0
  KeepsSigs =
      (tx : Transaction Value) (partial : Partial Value) (sigs : Option (List Signature))
      → lib.merge_transaction (combine_merge lib) (record tx { payload_sigs = sigs }) partial
        ≡ record (lib.merge_transaction (combine_merge lib) tx partial) { payload_sigs = sigs }

  -- What a case says but for its title and its payload's text.
  abbrev SameEnvelope : Draft lib → Draft lib → Type 0
  SameEnvelope x y =
      (without_sigs lib x.tx ≡ without_sigs lib y.tx) × (x.script_hash ≡ y.script_hash)

  abbrev AllSame : List (Draft lib) → List (Draft lib) → Type 0
  AllSame [] [] = Unit
  AllSame (x ∷ xs) (y ∷ ys) = SameEnvelope x y × AllSame xs ys
  AllSame _ _ = ⊥

  AllSame-append :
      (xs ys us vs : List (Draft lib))
      → AllSame xs ys
      → AllSame us vs
      → AllSame (xs ++ us) (ys ++ vs)
  AllSame-append [] [] us vs h k = k
  AllSame-append (x ∷ xs) (y ∷ ys) us vs (h, hs) k = (h, AllSame-append xs ys us vs hs k)
  AllSame-append [] (y ∷ ys) us vs h k = absurd h
  AllSame-append (x ∷ xs) [] us vs h k = absurd h

  -- The encoded envelopes of the cases.
  abbrev pub envelopes : List (Testcase lib) → List Text
  envelopes [] = []
  envelopes (c ∷ cs) = c.encoded_envelope ∷ envelopes cs

  abbrev pub encoded : Option (List (Testcase lib)) → Option (List Text)
  encoded none = none
  encoded (some cs) = some (envelopes cs)

  module _ (merkle_index : MerkleIndex) (merkle_tree : Tree) where
    abbrev payload_case : Draft lib → Option (Testcase lib)
    payload_case = create_payload_testcase lib merkle_index merkle_tree true

    abbrev envelope_case : Draft lib → Option (Testcase lib)
    envelope_case = create_envelope_testcase lib merkle_index merkle_tree true

    abbrev envelope_of : Option (Testcase lib) → Option Text
    envelope_of none = none
    envelope_of (some c) = some c.encoded_envelope

    abbrev envelope_at : Option (Option Tree) → Text → Option Text
    envelope_at none e = none
    envelope_at (some m) e = some e

    envelope_of-with_element :
        (o : Option (Option Tree)) (f : Option Tree → Testcase lib) (e : Text)
        → ((m : Option Tree) → (f m).encoded_envelope ≡ e)
        → envelope_of (with_element lib o f) ≡ envelope_at o e
    envelope_of-with_element none f e h = refl
    envelope_of-with_element (some m) f e h = ap some (h m)

    same_case :
        (x y : Draft lib)
        → SameEnvelope x y
        → envelope_of (payload_case x) ≡ envelope_of (envelope_case y)
    unfolding create_payload_testcase create_envelope_testcase
    same_case x y (tx, hash) =
        envelope_of-with_element (element_of lib merkle_index merkle_tree x.script_hash) _ _
          (λ m. refl)
        ∙ ap₂ envelope_at (ap (element_of lib merkle_index merkle_tree) hash)
            (ap lib.encode_envelope tx)
        ∙ sym (
            envelope_of-with_element (element_of lib merkle_index merkle_tree y.script_hash) _ _
              (λ m. refl))

    more : Option Text → Option (List Text) → Option (List Text)
    more (some e) (some es) = some (e ∷ es)
    more _ _ = none

    joined :
        (c : Option (Testcase lib)) (cs : Option (List (Testcase lib)))
        → encoded
            (elim c [ none ↦ none | some t ↦ elim cs [ none ↦ none | some ts ↦ some (t ∷ ts) ] ])
          ≡ more (envelope_of c) (encoded cs)
    unfolding more
    joined none cs = refl
    joined (some t) none = refl
    joined (some t) (some ts) = refl

    encoded-map_all :
        (create : Draft lib → Option (Testcase lib)) (x : Draft lib) (xs : List (Draft lib))
        → encoded (map_all lib create (x ∷ xs))
          ≡ more (envelope_of (create x)) (encoded (map_all lib create xs))
    unfolding more
    encoded-map_all create x xs = joined (create x) (map_all lib create xs)

    same_cases :
        (xs ys : List (Draft lib))
        → AllSame xs ys
        → encoded (map_all lib payload_case xs) ≡ encoded (map_all lib envelope_case ys)
    same_cases [] [] h = refl
    same_cases [] (y ∷ ys) h = absurd h
    same_cases (x ∷ xs) [] h = absurd h
    same_cases (x ∷ xs) (y ∷ ys) (h, hs) =
        encoded-map_all payload_case x xs
        ∙ ap₂ more (same_case x y h) (same_cases xs ys hs)
        ∙ sym (encoded-map_all envelope_case y ys)

  module _ (keeps : KeepsSigs) where
    same_built :
        (network : Network) (partial : Partial Value)
        → without_sigs lib (build_payload_tx lib network partial)
          ≡ without_sigs lib (build_envelope_tx lib network partial)
    same_built network partial =
        let base = base_payload_tx lib network in
        ap (without_sigs lib) (sym (keeps base partial (base_envelope_tx lib network).payload_sigs))

    drafts_from-AllSame :
        (network : Network) (t : Sample Value) (count i : ℕ) (combinations : List (List (Option ℕ)))
        → AllSame
            (drafts_from lib (build_payload_tx lib network) network t count i combinations)
            (drafts_from lib (build_envelope_tx lib network) network t count i combinations)
    unfolding drafts_from
    drafts_from-AllSame network t count i [] = tt
    drafts_from-AllSame network t count i (c ∷ cs) =
        ((same_built network _, refl), drafts_from-AllSame network t count (i + 1) cs)

    manifest_cases-AllSame :
        (network : Network) (ts : List (Sample Value))
        → AllSame
            (manifest_cases lib (build_payload_tx lib network) network ts)
            (manifest_cases lib (build_envelope_tx lib network) network ts)
    unfolding manifest_cases
    manifest_cases-AllSame network [] = tt
    manifest_cases-AllSame network (t ∷ ts) =
        AllSame-append _ _ _ _ (drafts_from-AllSame network t _ 0 _)
          (manifest_cases-AllSame network ts)

    -- The test cases for envelopes have the same encoded envelopes as those for payloads, one by one: the
    -- signature that is put into their transactions is taken out again. `merge` keeps the signatures of
    -- a target, which the source does not mention.
    pub manifest_envelope_cases-manifest_payload_cases :
        (merkle_index : MerkleIndex) (merkle_tree : Tree) (ts ms : List (Sample Value))
        → encoded (manifest_payload_cases lib merkle_index merkle_tree ts ms)
          ≡ encoded (manifest_envelope_cases lib merkle_index merkle_tree ts ms)
    manifest_envelope_cases-manifest_payload_cases merkle_index merkle_tree ts ms =
        same_cases merkle_index merkle_tree (payload_drafts lib ts ms) (envelope_drafts lib ts ms) (
          AllSame-append _ _ _ _ (manifest_cases-AllSame testnet ts)
            (manifest_cases-AllSame mainnet ms))
