-- ===== src/Lib.antt =====
-- The JavaScript client of the Flow app for Ledger devices (js/src), the metadata tree that it ships,
-- the generators of the tree and of the device's test cases (transaction_metadata), and the part of the
-- device's app that checks the tree's proofs.
--
-- The program and its files. The client talks to the device's app over a transport that sends one
-- packet (APDU) at a time and gives back a response that ends in a status word. For a known script
-- the client sends the script's metadata and a Merkle proof behind the transaction; the device checks
-- the proof against a root that it knows.
--
-- * js/src/serializePath.js - Path: `serializePath` (serialize_path, with the loop write_children and
--   one round child_value), `printBIP44Path` (print_bip44_path, print_item), `validateCryptoOptions`.
--   Path/Items, Layout, Print, Failures, Negative and Options hold what is proved of them.
-- * js/src/common.js - Common: status words and their texts, `processErrorResponse`; Common/Version:
--   `getVersion`'s reading of a response and `compareVersion`; Common/ErrorCodes.
-- * js/src/signTransaction.js - Sign: `prepareBasicChunks`, `signGetChunks`; the payload types are
--   Sign/PayloadType; Merkle/Tree is the shape of the tree of js/src/txMerkleTree.js, which the
--   packets are modelled over as a parameter, like the index. Sign/Chunks, Rounds and Workflows.
-- * js/src/txMerkleTree.js - Shipped: the nodes that hold metadata (Branch0 to Branch3), the tree
--   (Shape) and the index (Index) as data; Shipped/Proofs on the packets that are made of them.
-- * js/src/index.js - Client: the transport as a record of a state and `send` (Client/Transport), the
--   handlers of responses (Client/Responses), what is sent and resolved to (Client/Payloads), the
--   methods of `FlowApp` (Client/App), its constructor and constants (Client/Constants). Client/Signing,
--   Gate, Address and Slots hold what is proved of them.
-- * src/tx_metadata.c - Device/Stored: `storeTxMetadata`, `validateStoredTxMetadataMerkleTreeLevel`
--   and the two tests of `parseTxMetadata`; Device/Parse: `_validateScriptHash`, READ_CHAR, READ_STRING,
--   `parseTxMetadataInternal`, `parseTxMetadata`, with Parse/ScriptHash, Script and Bounds on what is
--   parsed. src/common/app_helper.c - Device/Chunks: `process_chunk`. Device/Chain: any packets;
--   Device/Honest: a proof against a tree; Device/Levels, Accepts and Gate: the client's packets of a
--   proof; Device/Transaction: all its packets. src/apdu_handler.c - Device/Handler: `handleSign`, and of
--   `handleApdu` what a SIGN packet meets, as the transport of a client; Device/Session and
--   Refused: a call of `sign` with such a device, to its review or to a refusal.
-- * transaction_metadata/tree/index.js - Generator: a template as metadata (Encode: `processArg`,
--   `templatesToMetadata`), the levels (Build: `processMerkleTreeLevel`, `splitTo7Tuples`, the loop
--   over the depth), the index (Index), the cut branches (Cut) and `readManifest` (Manifest);
--   Generator/Keys joins metadata and index, Generator/Tuples, Levels and Proofs join the tree with the
--   client and the device, Generator/Parsed, Shown, Arguments, Octets and RoundTrip the metadata with the
--   device's parse, Generator/Whole, Complete and Descend what the tree and its
--   index hold; Manifest/Pairs, Places, Steps, Leads, Trust, Signable and Signed all of it.
-- * transaction_metadata/tests/index.js - Vectors: the constants and what is imported (Data), the choice
--   of sample values (Select), `combineMerge` (Merge), transactions and test cases (Cases);
--   Vectors/Combinations, Merged and Signatures hold what is proved of them.
--
-- Prelude holds lists, Boolean tests, results with a do block and decimal digits. Js is what the code
-- uses of JavaScript and of node's Buffer: numbers as exact multiples of 2 ^ -1074 with rounding to
-- the nearest double (Js/Number), `Number` of a text (Js/ToNumber), `split`, `endsWith` (Js/Strings),
-- hexadecimal (Js/Hex), UTF-8 and its decoding (Js/Utf8), bounds and byte order of `writeUIntLE` and
-- `slice` (Js/Buffer).
--
-- State. A method takes the transport's state and returns the new state with what its promise settles
-- to: an answer, an object with a code and a message, or a rejection (Failure). A text is a list of
-- UTF-16 units, a buffer a list of bytes. What a promise is rejected with is a Rejection. The device's
-- globals that a SIGN packet changes are a Machine; `process_chunk` returns a new one with what the C
-- function returns or throws. SHA-256 and the device's transaction buffer are vendored code: they are
-- parameters, and a hash that the tree has right is a hypothesis (IsStep, IsLeaf). So are rlp,
-- @onflow/encode, deepmerge and jssha for the test cases (Libraries), where deepmerge is documented to
-- keep a member that only the target has (KeepsSigs). What a device does outside of the model is a
-- record of functions (Outside): the review of a transaction (parse, views, the user, the signature),
-- the other handlers, and the transport's library (Delivers).
--
-- Bounds and fuel. `add_chunks` runs on fuel, one more than the message's length: each round that
-- goes on takes at least a byte. `format` runs on one more than the number, which has no more digits
-- than that; the digits of a target id have fuel 8, enough for 32 bits. `has_hash` runs on the length
-- of the list, and takes 32 bytes a round. `read_rounds` has 101 rounds, one more than a string may have
-- bytes, and `find_script` one for each hash, as in the code.
--
-- Not modelled: the files that the two generators read and write, the rest of the device's app (the
-- parse of transactions, views, keys and slots), and console output.

pub mod Prelude
pub mod Js
pub mod Path
pub mod Merkle
pub mod Common
pub mod Sign
pub mod Shipped
pub mod Client
pub mod Device
pub mod Generator
pub mod Vectors
mod Tests
