-- ===== src/Api/New.antt =====
-- The constructor of the Api, against a node's answers.
use fusotao_rust_client.Prelude.{◌≡◌, refl, ap, sym, ◌∙◌, none, some, [], length, append-nil}
use fusotao_rust_client.Prelude.Result.{ok}
use fusotao_rust_client.Prelude.Text.{Bytes, Text}
use fusotao_rust_client.External.Codec.{RoundTrips}
use fusotao_rust_client.External.FrameMetadata.{RuntimeMetadataPrefixed}
use fusotao_rust_client.External.Hex.{IsLawfulHex}
use fusotao_rust_client.External.Runtime.{RuntimeVersion}
use fusotao_rust_client.Metadata.{Metadata}
use fusotao_rust_client.Metadata.Parse.{try_from}
use fusotao_rust_client.Utils.RoundTrip.{vec_from_hex-encode, hash_from_hex_iff}
use fusotao_rust_client.Rpc.Requests.{
  chain_get_genesis_hash, state_get_metadata, state_get_runtime_version,
}
use fusotao_rust_client.Api.{
  Crates, RpcClient, get_request_by, get_genesis_hash_by, get_metadata_by, get_runtime_version_by,
  null_or, new,
}
use fusotao_rust_client.Api.Storage.Chain.{answer_text}

-- What a node answers about its runtime: the genesis hash and the metadata in hex, and the version.
pub record ServesRuntime (C : Crates) (client : RpcClient C) (genesis_hash : Bytes)
    (prefixed : RuntimeMetadataPrefixed) (version : RuntimeVersion) : Type 0 where
  pub hash :
      client.get_request (chain_get_genesis_hash C.json C.serialize)
      ≡ ok (answer_text C (some genesis_hash))
  pub hash_written : IsLawfulHex C.hex genesis_hash
  pub hash_sized : length genesis_hash ≡ 32
  pub metadata :
      client.get_request (state_get_metadata C.json C.serialize)
      ≡ ok (answer_text C (some (C.prefixed.encode prefixed)))
  pub metadata_written : IsLawfulHex C.hex (C.prefixed.encode prefixed)
  pub metadata_read : RoundTrips C.prefixed prefixed
  pub version_text : Text
  pub version_answer :
      client.get_request (state_get_runtime_version C.json C.serialize) ≡ ok version_text
  pub version_there : null_or version_text ≡ some version_text
  pub version_read : C.serde.runtime_version version_text ≡ ok version

module _ (C : Crates) (client : RpcClient C) (genesis_hash : Bytes)
    (prefixed : RuntimeMetadataPrefixed) (version : RuntimeVersion)
    (serves : ServesRuntime C client genesis_hash prefixed version) where
  get_genesis_hash_by-ServesRuntime : get_genesis_hash_by C client ≡ ok genesis_hash
  unfolding get_genesis_hash_by get_request_by
  get_genesis_hash_by-ServesRuntime =
      rw
        (
          serves.hash,
          (hash_from_hex_iff C.hex _ genesis_hash).1
              ((vec_from_hex-encode C.hex genesis_hash serves.hash_written).1, serves.hash_sized),
        )
        refl

  get_metadata_by-ServesRuntime : get_metadata_by C client ≡ ok prefixed
  unfolding get_metadata_by get_request_by
  get_metadata_by-ServesRuntime =
      let bytes = C.prefixed.encode prefixed in
      rw
        (
          serves.metadata,
          (vec_from_hex-encode C.hex bytes serves.metadata_written).1,
          ap C.prefixed.decode (sym (append-nil bytes)) ∙ serves.metadata_read [],
        )
        refl

  get_runtime_version_by-ServesRuntime : get_runtime_version_by C client ≡ ok version
  unfolding get_runtime_version_by get_request_by
  get_runtime_version_by-ServesRuntime =
      rw (serves.version_answer, serves.version_there, serves.version_read) refl

  -- If a node answers with its genesis hash and its metadata in hex and with its version, the codec
  -- reads the metadata back, and `try_from` builds tables of it, then `Api::new` returns an Api
  -- without a signer that holds the client, this hash, these tables and this version.
  pub new-ServesRuntime :
      {P : Type 0} (tables : Metadata)
      → try_from C.meta_reserved prefixed ≡ ok tables
      → new C {P = P} client
        ≡ ok (record {
          signer = none;
          genesis_hash = genesis_hash;
          metadata = tables;
          runtime_version = version;
          client = client;
        })
  unfolding new
  new-ServesRuntime tables built =
      rw
        (
          get_genesis_hash_by-ServesRuntime, get_metadata_by-ServesRuntime, built,
          get_runtime_version_by-ServesRuntime,
        )
        refl
