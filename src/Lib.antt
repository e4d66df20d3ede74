-- ===== src/Lib.antt =====
-- A model of substrate-api-client, a Rust client for Substrate nodes.
--
-- The program composes and signs extrinsics, builds the keys of storage entries from a node's
-- metadata, talks JSON-RPC with the node over a WebSocket, and decodes events by the metadata.
--
-- Parts, and the files that model them:
--   node-api/src/storage.rs: Storage. The structs StorageValue, StorageMap and StorageDoubleMap are
--     records, their methods `key` and `partial_key` are value_key, map_key, double_map_key and
--     partial_key.
--   node-api/src/metadata.rs: Metadata (the records and look-ups), Metadata/Parse (try_from for
--     version 14), Metadata/StorageKeys (the storage keys by names),
--     Metadata/Print (the print functions). Metadata/Tables relates the
--     tables to the declared enums; Metadata/Lookup, Metadata/Calls, Metadata/Entries,
--     Metadata/Listing and Metadata/Resolves hold the theorems.
--   node-api/src/error.rs and the error types of metadata.rs and decoder.rs: Error, Dispatch.
--   node-api/src/decoder.rs: Decoder/Types (decode_type), Decoder/Events (decode_events,
--     decode_call), Decoder/Identifiers (the extractors of storage key identifiers).
--     Decoder/Types/Written is the SCALE encoding of values, Decoder/Types/Encoded the part of it
--     that decode_type can read, and Decoder/Events/Encoded the bytes of event records.
--   primitives/src/extrinsics.rs: Extrinsic; compose-macros/src/lib.rs: Extrinsic/Compose.
--   src/utils.rs: Utils.
--   src/std/rpc: Rpc/Requests (json_req.rs), Rpc/Types (mod.rs), Rpc/Status, Rpc/Handlers,
--     Rpc/Client, Rpc/Subscriber, Rpc/Threads and Rpc/Events (ws_client), Rpc/ApiError (src/std/error.rs).
--   src/std/mod.rs: Api (the trait RpcClient, the Api, its constructor), Api/Storage, Api/Blocks,
--     Api/Fees and Api/Account (its methods, by what they ask for); the functions whose name begins
--     with an underscore end in _by here. Api/Ws has the WebSocket client as an RpcClient.
--     Extrinsic/Compose/Online is the macro compose_extrinsic!, which asks an Api for the nonce.
--   primitives/src/lib.rs: Primitives, the account data.
-- Prelude holds what the parts share: results and outcomes, hash maps, lists over the native numbers
-- and texts. External holds the interfaces of other crates: parity-scale-codec, sp_core's hash
-- functions, hex, serde_json with the readers that serde derives, and the data types of
-- frame_metadata, scale_info and sp_runtime. What the theorems need of those crates is a hypothesis of
-- the theorem; Tests has small instances for which the hypotheses hold, and each theorem at such an
-- instance.
--
-- State and operations. `&mut &[u8]` is the input that goes in and the input that is left; the
-- decoder's `input` and `output` are a Cursor; a connection is a record with what was sent to the
-- caller. `?` is a bind of Result, or of Outcome where the code may also panic. An integer is a
-- native number; u8 values are produced by the codecs, and no arithmetic of the modelled code wraps.
-- A HashMap is an association list with one entry for a key; `collect` keeps the last entry.
--
-- Fuel. decode_type recurses on type ids, so it takes fuel. Any amount above the rank of a type is
-- enough when types refer only to types of smaller rank; on a cyclic registry the Rust code can
-- recurse for as long as the input lasts. Events and calls pass the fuel on. All other loops are
-- structural.
--
-- Threads. start_rpc_client_thread runs a connection in a thread; the model takes the messages that
-- the node sends, in order, and lets the handler react to each of them until the first text for
-- the caller is there. A caller for whom no text comes waits. Rpc/Threads has the thread and its
-- caller as a step relation over the channel between them: the thread handles a message, the caller
-- takes a text or drops its receiver, in any order. Rpc/Threads/Notified says what this comes to for
-- a subscription, and Rpc/Threads/Included for an extrinsic. The list of messages ends where the node
-- falls silent; the steps of `ws` inside a handler are not told apart.
--
-- The crate ws ends a connection, and with it the thread, when a handler returns an error of ws
-- itself. An error that the handlers box, RpcClientError, is one of kind Custom: ws only hands it to
-- on_error, so the thread goes on with the next message unless the handler has closed the connection
-- (is_over in Rpc/Handlers). A subscription thus goes on after a text that is not JSON.
--
-- The conversion of a number of the node to u128 is serde's: Api/Fees/Bounds states its documented law
-- as a hypothesis, IsNumberConversion.
--
-- An RpcClient answers each request by a function of the request: the state of the node does not
-- change within one call of the Api. What the node stores is a Chain, a function from blocks and
-- storage keys to bytes; Serves relates a client to a chain. A subscription is what its channel
-- brings: the texts in order, and whether the sender is gone after the last.
--
-- Not modelled: logging; serde and Debug impls; client-keystore, which is a copy of a
-- Substrate crate; node-api/src/events.rs, which is not compiled; the client of src/std/rpc/
-- rpsee-client, a stub.
pub mod Prelude
pub mod External
pub mod Error
pub mod Storage
pub mod Metadata
pub mod Dispatch
pub mod Decoder
pub mod Extrinsic
pub mod Primitives
pub mod Utils
pub mod Rpc
pub mod Api
pub mod Tests
