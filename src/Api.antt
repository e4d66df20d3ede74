-- ===== src/Api.antt =====
-- src/std/mod.rs: the trait RpcClient, and the Api with the requests that its constructor makes.
pub mod Storage
pub mod Blocks
pub mod Fees
pub mod Account
pub mod Ws
pub mod New
use fusotao_rust_client.Prelude.{ℕ, Option, none, some, if◌then◌else◌}
use fusotao_rust_client.Prelude.Result.{Result, ok, err, ◌>>=◌, map_err, map_ok}
use fusotao_rust_client.Prelude.Text.{Text, Bytes, codes, text_eq}
use fusotao_rust_client.External.Codec.{Codec}
use fusotao_rust_client.External.FrameMetadata.{RuntimeMetadataPrefixed}
use fusotao_rust_client.External.Hashing.{Hashing}
use fusotao_rust_client.External.Hex.{Hex}
use fusotao_rust_client.External.Json.{Json}
use fusotao_rust_client.External.Runtime.{RuntimeVersion}
use fusotao_rust_client.External.Serde.{Serde}
use fusotao_rust_client.Metadata.{Metadata}
use fusotao_rust_client.Metadata.Parse.{try_from}
use fusotao_rust_client.Primitives.{AccountInfo}
use fusotao_rust_client.Utils.{vec_from_hex, hash_from_hex}
use fusotao_rust_client.Rpc.ApiError.{
  ApiError, genesis, runtime_version, metadata_fetch, storage_value_decode, invalid_hex_string,
  invalid_metadata, deserializing,
}
use fusotao_rust_client.Rpc.Requests.{
  Serialize, chain_get_genesis_hash, state_get_metadata, state_get_runtime_version,
}
use fusotao_rust_client.Rpc.Types.{XtStatus}

-- What the Api uses of other crates. A hash is its 32 bytes.
pub record Crates : Type 1 where
  pub json : Json
  pub serialize : Serialize json Bytes
  pub serde : Serde json
  pub hashing : Hashing
  pub hex : Hex
  pub AccountId : Type 0
  pub account_id : Codec AccountId
  pub account_info : Codec AccountInfo
  -- an `u128`
  pub balance : Codec ℕ
  pub prefixed : Codec RuntimeMetadataPrefixed
  -- the constant `META_RESERVED` of `frame_metadata`
  pub meta_reserved : ℕ

abbrev pub Value : Crates → Type 0
Value C = Json.Value C.json

abbrev pub ApiResult : Crates → Type 0 → Type 0
ApiResult C A = Result (ApiError (Json.SerdeError C.json)) A

-- The trait. A client answers each request as the node's state is during a call of the Api.
pub record RpcClient (C : Crates) : Type 0 where
  pub get_request : Value C → ApiResult C Text
  pub send_extrinsic : Text → XtStatus → ApiResult C (Option Bytes)

pub record Api (C : Crates) (P : Type 0) : Type 0 where
  pub signer : Option P
  pub genesis_hash : Bytes
  pub metadata : Metadata
  pub runtime_version : RuntimeVersion
  pub client : RpcClient C

-- `set_signer`
abbrev pub set_signer : {C : Crates} {P : Type 0} → Api C P → P → Api C P
set_signer api signer = record api { signer = some signer }

abbrev pub null_or : Text → Option Text
null_or str = if text_eq str (codes "null") then none else some str

module _ (C : Crates) where
  -- `Vec::from_hex(s)?`, `Hash::from_hex(s)?` and `Decode::decode(&mut b.as_slice())?`
  abbrev pub bytes_of : Text → ApiResult C Bytes
  bytes_of s = map_err invalid_hex_string (vec_from_hex C.hex s)

  abbrev pub hash_of : Text → ApiResult C Bytes
  hash_of s = map_err invalid_hex_string (hash_from_hex C.hex s)

  abbrev pub decoded : {V : Type 0} → Codec V → Bytes → ApiResult C V
  decoded c b = do (v, rest) ← map_err storage_value_decode (c.decode b); ok v

  -- `_get_request`
  unfoldable pub get_request_by : RpcClient C → Value C → ApiResult C (Option Text)
  get_request_by client jsonreq = do str ← client.get_request jsonreq; ok (null_or str)

  -- `_get_genesis_hash`
  unfoldable pub get_genesis_hash_by : RpcClient C → ApiResult C Bytes
  unfolding get_request_by
  get_genesis_hash_by client = do
    answer ← get_request_by client (chain_get_genesis_hash C.json C.serialize)
    elim answer [ some g ↦ hash_of g | none ↦ err genesis ]

  -- `_get_runtime_version`
  unfoldable pub get_runtime_version_by : RpcClient C → ApiResult C RuntimeVersion
  unfolding get_request_by
  get_runtime_version_by client = do
    version ← get_request_by client (state_get_runtime_version C.json C.serialize)
    elim version [
      | some v ↦ map_err deserializing (C.serde.runtime_version v)
      | none ↦ err ApiError.runtime_version
    ]

  -- `_get_metadata`
  unfoldable pub get_metadata_by : RpcClient C → ApiResult C RuntimeMetadataPrefixed
  unfolding get_request_by
  get_metadata_by client = do
    meta ← get_request_by client (state_get_metadata C.json C.serialize)
    elim meta [
      | none ↦ err metadata_fetch
      | some hex ↦ do metadata ← bytes_of hex; decoded C.prefixed metadata
    ]

  module _ {P : Type 0} where
    -- `Api::new`
    unfoldable pub new : RpcClient C → ApiResult C (Api C P)
    unfolding get_genesis_hash_by get_metadata_by get_runtime_version_by
    new client = do
      genesis_hash ← get_genesis_hash_by client
      prefixed ← get_metadata_by client
      metadata ← map_err invalid_metadata (try_from C.meta_reserved prefixed)
      version ← get_runtime_version_by client
      ok (record {
        signer = none;
        genesis_hash = genesis_hash;
        metadata = metadata;
        runtime_version = version;
        client = client;
      })

    -- `Api::get_request`
    unfoldable pub get_request : Api C P → Value C → ApiResult C (Option Text)
    unfolding get_request_by
    get_request api jsonreq = get_request_by api.client jsonreq

    -- `Api::get_metadata`
    unfoldable pub get_metadata : Api C P → ApiResult C RuntimeMetadataPrefixed
    unfolding get_metadata_by
    get_metadata api = get_metadata_by api.client

    -- `Api::get_spec_version`
    unfoldable pub get_spec_version : Api C P → ApiResult C ℕ
    unfolding get_runtime_version_by
    get_spec_version api =
        map_ok (λ (v : RuntimeVersion). v.spec_version) (get_runtime_version_by api.client)

    -- `Api::get_genesis_hash`
    unfoldable pub get_genesis_hash : Api C P → ApiResult C Bytes
    unfolding get_genesis_hash_by
    get_genesis_hash api = get_genesis_hash_by api.client

    -- `Api::send_extrinsic`
    unfoldable pub send_extrinsic : Api C P → Text → XtStatus → ApiResult C (Option Bytes)
    send_extrinsic api xthex_prefixed exit_on = api.client.send_extrinsic xthex_prefixed exit_on
