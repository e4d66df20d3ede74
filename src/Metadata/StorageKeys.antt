-- ===== src/Metadata/StorageKeys.antt =====
-- The storage keys of a runtime's entries by name: the last `impl Metadata` of
-- node-api/src/metadata.rs.
use fusotao_rust_client.Prelude.{String}
use fusotao_rust_client.Prelude.Result.{Result, ok, ◌>>=◌}
use fusotao_rust_client.External.Codec.{Codec}
use fusotao_rust_client.External.Hashing.{Hashing}
use fusotao_rust_client.Error.{MetadataError}
use fusotao_rust_client.Storage.{
  StorageKey, get_value, get_map, get_map_prefix, get_double_map, get_double_map_prefix, value_key,
  map_key, double_map_key,
}
use fusotao_rust_client.Metadata.{Metadata, pallet, storage}

module _ (h : Hashing) (m : Metadata) (storage_prefix storage_key_name : String) where
  unfoldable pub storage_value_key : Result MetadataError StorageKey
  storage_value_key = do
    p ← pallet m storage_prefix
    entry ← storage p storage_key_name
    value ← get_value entry storage_prefix
    ok (value_key h value)

  unfoldable pub storage_map_key {ℓ} : {K : Type ℓ} → Codec K → K → Result MetadataError StorageKey
  storage_map_key c key = do
    p ← pallet m storage_prefix
    entry ← storage p storage_key_name
    s ← get_map entry storage_prefix
    ok (map_key h c s key)

  unfoldable pub storage_map_key_prefix : Result MetadataError StorageKey
  storage_map_key_prefix = do
    p ← pallet m storage_prefix
    entry ← storage p storage_key_name
    get_map_prefix h entry storage_prefix

  unfoldable pub storage_double_map_key {ℓ κ} :
      {K : Type ℓ} {Q : Type κ} → Codec K → Codec Q → K → Q → Result MetadataError StorageKey
  storage_double_map_key c d first second = do
    p ← pallet m storage_prefix
    entry ← storage p storage_key_name
    s ← get_double_map entry storage_prefix
    ok (double_map_key h c d s first second)

  unfoldable pub storage_double_map_partial_key {ℓ} :
      {K : Type ℓ} → Codec K → K → Result MetadataError StorageKey
  storage_double_map_partial_key c first = do
    p ← pallet m storage_prefix
    entry ← storage p storage_key_name
    get_double_map_prefix h c entry storage_prefix first
