-- ===== src/Vectors/Data.antt =====
-- transaction_metadata/tests/index.js: networks, transactions, templates, and what is imported.
use app_flow.Prelude.{ℕ, Bool, Option, List, Text, Bytes, codes}

pub data Network : Type 0 where
  testnet mainnet : Network

-- ADDRESSES
abbrev pub address_of : Network → Text
address_of testnet = codes "99a8ac2c71d4f6bd"
address_of mainnet = codes "f19c161bc24cf4b4"

-- PUBLIC_KEY
abbrev pub public_key : Text
public_key =
    codes
      "94488a795a07700c6fb83e066cf57dfd87f92ce70cbc81cb3bd3fea2df7b67073b70e36b44f3578b43d64d3faa2e8e415ef6c2b5fe4390d5a78e238581c6e4bc"

-- SIG_ALGO_ECDSA_P256
abbrev pub sig_algo_ecdsa_p256 : ℕ
sig_algo_ecdsa_p256 = 2

-- HASH_ALGO_SHA3_256
abbrev pub hash_algo_sha3_256 : ℕ
hash_algo_sha3_256 = 3

-- WEIGHT_MAX
abbrev pub weight_max : ℕ
weight_max = 1000

pub record ProposalKey : Type 0 where
  pub address : Text
  pub key_id : ℕ
  pub sequence_num : ℕ

pub record Signature : Type 0 where
  pub address : Text
  pub key_id : ℕ
  pub sig : Text

-- A transaction; `payload_sigs` is `none` where the object has no such member.
pub record Transaction (V : Type 0) : Type 0 where
  pub script : Text
  pub arguments : List (Option V)
  pub ref_block : Text
  pub gas_limit : ℕ
  pub proposal_key : ProposalKey
  pub payer : Text
  pub authorizers : List Text
  pub payload_sigs : Option (List Signature)

-- The members that are merged into a transaction.
pub record Partial (V : Type 0) : Type 0 where
  pub script : Text
  pub arguments : List (Option V)

-- What the file takes from rlp, @onflow/encode, deepmerge and jssha, over values such as sample values;
-- `is_same` is `===` on these.
pub record Libraries : Type 1 where
  pub Value : Type 0
  pub string_value : Text → Value
  pub is_same : Option Value → Option Value → Bool
  pub is_mergeable_object : Option Value → Bool
  pub clone : Option Value → Option Value
  pub merge : Option Value → Option Value → Option Value
  pub merge_transaction :
      (List (Option Value) → List (Option Value) → List (Option Value))
      → Transaction Value
      → Partial Value
      → Transaction Value
  pub encode_key : Bytes → ℕ → ℕ → ℕ → Text
  pub encode_payload : Transaction Value → Text
  pub encode_envelope : Transaction Value → Text
  pub sha256 : Text → Text

-- An argument of a template of the manifest.
pub record Parameter (V : Type 0) : Type 0 where
  pub type : Text
  pub sample_values : List V

-- A template of the manifest.
pub record Sample (V : Type 0) : Type 0 where
  pub id : Text
  pub name : Text
  pub source : Text
  pub arguments : List (Parameter V)
