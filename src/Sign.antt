-- ===== src/Sign.antt =====
-- js/src/signTransaction.js: the packets that `sign` and `signMessage` send.
pub mod PayloadType
pub mod Entries
pub mod Chunks
pub mod Rounds
pub mod Workflows
use app_flow.Prelude.{
  ℕ, zero, suc, ◌+◌, ◌<◌, Bool, true, false, ◌||◌, not, Option, none, some, List, [], ◌∷◌, ◌++◌,
  ltb, ◌==◌, if◌then◌else◌, Text, Bytes, codes, text_eq, length, take, Result, ok, err, ◌>>=◌,
}
use app_flow.Js.Number.{JsNumber}
use app_flow.Js.Buffer.{slice}
use app_flow.Js.Hex.{from_hex}
use app_flow.Path.{PathArg, PathError, serialize_path}
use app_flow.Merkle.Tree.{Tree, string, node, child, children, join_hashes}

abbrev pub chunk_size : ℕ
chunk_size = 250

abbrev pub p2_unused : ℕ
p2_unused = 0x00

pub record Chunk : Type 0 where
  pub type : ℕ
  pub p2 : ℕ
  pub buffer : Bytes

-- Whether the result of `signIsLastAPDU` counts as true: it is the number 0x10 where no test holds.
unfoldable pub sign_is_last_apdu : ℕ → Bool
sign_is_last_apdu type =
    type == PayloadType.last
    || type == PayloadType.merkle_tree_last
    || not (PayloadType.message_last == 0)

-- The loop `for (let i = 0; i < buffer.length; i += CHUNK_SIZE)`, from index `i` on.
unfoldable pub add_chunks : ℕ → Bytes → ℕ → List Chunk
add_chunks zero buffer i = []
add_chunks (suc fuel) buffer i =
    let end = if ltb (length buffer) i then length buffer else i + chunk_size in
    let rest = add_chunks fuel buffer (i + chunk_size) in
    if ltb i (length buffer)
    then record { type = PayloadType.add; p2 = p2_unused; buffer = slice buffer i end } ∷ rest
    else []

-- Each round takes a byte at least, so `length message + 1` rounds are enough.
unfoldable pub prepare_basic_chunks : Bytes → Bytes → List Chunk
prepare_basic_chunks serialized_path message =
    record { type = PayloadType.init; p2 = p2_unused; buffer = serialized_path }
    ∷ add_chunks (suc (length message)) message 0

-- `basicChunks[basicChunks.length-1].type = type`, and the same for `p2`.
unfoldable pub set_last_type : ℕ → List Chunk → List Chunk
set_last_type type [] = []
set_last_type type (c ∷ []) = record c { type = type; p2 = p2_unused } ∷ []
set_last_type type (c ∷ d ∷ cs) = c ∷ set_last_type type (d ∷ cs)

-- The `extraInfo` argument: a string, or a value with no `slice`.
pub data ExtraInfo : Type 0 where
  text : Text → ExtraInfo
  not_text : ExtraInfo

-- What is thrown; a `TypeError` comes from an access to `undefined`.
pub data SignError : Type 0 where
  path_error : PathError → SignError
  type_error : SignError

-- The four indices of a leaf in the tree.
pub record LeafIndex : Type 0 where
  pub i0 : ℕ
  pub i1 : ℕ
  pub i2 : ℕ
  pub i3 : ℕ

abbrev pub MerkleIndex : Type 0
MerkleIndex = List (Text × LeafIndex)

-- What `merkleIndex[key]` is: an entry, a member that every object inherits, or undefined.
pub data Entry : Type 0 where
  leaf : LeafIndex → Entry
  inherited : Entry
  undefined : Entry

-- The names of Object.prototype that a key of at most 16 characters can spell.
is_inherited : Text → Bool
is_inherited key =
    text_eq key (codes "constructor")
    || text_eq key (codes "toString")
    || text_eq key (codes "valueOf")
    || text_eq key (codes "hasOwnProperty")
    || text_eq key (codes "isPrototypeOf")
    || text_eq key (codes "toLocaleString")
    || text_eq key (codes "__proto__")
    || text_eq key (codes "__defineGetter__")
    || text_eq key (codes "__defineSetter__")
    || text_eq key (codes "__lookupGetter__")
    || text_eq key (codes "__lookupSetter__")

unfoldable pub lookup : Text → MerkleIndex → Entry
unfolding is_inherited
lookup key [] = if is_inherited key then inherited else undefined
lookup key ((k, v) ∷ index) = if text_eq k key then leaf v else lookup key index

-- An access whose value must be there for the next one.
abbrev pub need {ℓ} : {A : Type ℓ} → Option A → Result SignError A
need none = err type_error
need (some a) = ok a

-- The leaf's text: a string is decoded, any other value makes `Buffer.from` throw.
abbrev pub leaf_text : Tree → Result SignError Text
leaf_text (string s) = ok s
leaf_text (node h ts) = err type_error

abbrev pub hex_chunk : ℕ → Text → Chunk
hex_chunk type hex = record { type = type; p2 = p2_unused; buffer = from_hex hex }

-- The inner nodes on the way to a leaf, from the root's child down.
unfoldable pub proof_chunks : Tree → LeafIndex → Result SignError (List Chunk)
proof_chunks tree at = do
  n0 ← need (child tree at.i0)
  n1 ← need (child n0 at.i1)
  n2 ← need (child n1 at.i2)
  n3 ← need (child n2 at.i3)
  last ← need (child n3 0)
  level1 ← need (children n2)
  level2 ← need (children n1)
  level3 ← need (children n0)
  level4 ← need (children tree)
  metadata ← leaf_text last
  ok (
      hex_chunk PayloadType.tx_metadata metadata
      ∷ hex_chunk PayloadType.merkle_tree (join_hashes level1)
      ∷ hex_chunk PayloadType.merkle_tree (join_hashes level2)
      ∷ hex_chunk PayloadType.merkle_tree (join_hashes level3)
      ∷ hex_chunk PayloadType.merkle_tree_last (join_hashes level4)
      ∷ [])

abbrev lift : {A : Type 0} → Result PathError A → Result SignError A
lift (ok a) = ok a
lift (err e) = err (path_error e)

-- `signGetChunks`, over the two objects of txMerkleTree.js.
module _ (merkle_index : MerkleIndex) (merkle_tree : Tree) where
  with_metadata : Text → List Chunk → Result SignError (List Chunk)
  with_metadata script_hash basic_chunks = elim (lookup (take 16 script_hash) merkle_index) [
    | undefined ↦ ok []
    | inherited ↦ err type_error
    | leaf at ↦ do proof ← proof_chunks merkle_tree at; ok (basic_chunks ++ proof)
  ]

  choose : ExtraInfo → List Chunk → Result SignError (List Chunk)
  choose not_text basic_chunks = err type_error
  choose (text extra) basic_chunks =
      if text_eq extra (codes "Sign message")
      then ok (set_last_type PayloadType.message_last basic_chunks)
      else if text_eq extra (codes "arbitrary")
      then ok (set_last_type PayloadType.last basic_chunks)
      else with_metadata extra basic_chunks

  unfoldable pub sign_get_chunks :
      PathArg → JsNumber → Bytes → ExtraInfo → Result SignError (List Chunk)
  unfolding choose with_metadata
  sign_get_chunks path options message extra = do
    serialized_path ← lift (serialize_path path options)
    choose extra (prepare_basic_chunks serialized_path message)
