-- ===== src/Storage.antt =====
-- node-api/src/storage.rs: storage keys from storage metadata.
pub mod Keys
use fusotao_rust_client.Prelude.{String, Option, none, some, List, [], ◌∷◌, ◌++◌, get_elem?}
use fusotao_rust_client.Prelude.Result.{Result, ok, err, ◌>>=◌, ok_or}
use fusotao_rust_client.Prelude.Text.{Bytes, as_bytes}
use fusotao_rust_client.External.Codec.{Codec}
use fusotao_rust_client.External.Hashing.{Hashing}
use fusotao_rust_client.External.FrameMetadata.{StorageHasher, StorageEntryMetadata}
use fusotao_rust_client.External.FrameMetadata.{StorageEntryType, plain, map_of}
use fusotao_rust_client.External.FrameMetadata.{
  blake2_128, blake2_256, blake2_128_concat, twox128, twox256, twox64_concat, identity,
}
use fusotao_rust_client.Error.{MetadataError, storage_type_error}

-- `sp_core::storage::StorageKey`, a wrapper of its bytes.
abbrev pub StorageKey : Type 0
StorageKey = Bytes

pub record StorageValue : Type 0 where
  pub module_prefix : Bytes
  pub storage_prefix : Bytes

pub record StorageMap : Type 0 where
  pub module_prefix : Bytes
  pub storage_prefix : Bytes
  pub hasher : StorageHasher

pub record StorageDoubleMap : Type 0 where
  pub module_prefix : Bytes
  pub storage_prefix : Bytes
  pub hasher : StorageHasher
  pub key2_hasher : StorageHasher

module _ (h : Hashing) where
  unfoldable pub key_hash {ℓ} : {K : Type ℓ} → Codec K → K → StorageHasher → Bytes
  key_hash c key identity = c.encode key
  key_hash c key blake2_128 = h.blake2_128 (c.encode key)
  key_hash c key blake2_128_concat = h.blake2_128 (c.encode key) ++ c.encode key
  key_hash c key blake2_256 = h.blake2_256 (c.encode key)
  key_hash c key twox128 = h.twox_128 (c.encode key)
  key_hash c key twox256 = h.twox_256 (c.encode key)
  key_hash c key twox64_concat = h.twox_64 (c.encode key) ++ c.encode key

  -- `StorageValue::key`
  unfoldable pub value_key : StorageValue → StorageKey
  value_key v = h.twox_128 v.module_prefix ++ h.twox_128 v.storage_prefix

  -- `StorageMap::key`
  unfoldable pub map_key {ℓ} : {K : Type ℓ} → Codec K → StorageMap → K → StorageKey
  map_key c m key =
      (h.twox_128 m.module_prefix ++ h.twox_128 m.storage_prefix) ++ key_hash c key m.hasher

  -- `StorageDoubleMap::key`
  unfoldable pub double_map_key {ℓ κ} :
      {K : Type ℓ} {Q : Type κ} → Codec K → Codec Q → StorageDoubleMap → K → Q → StorageKey
  double_map_key c d m key1 key2 =
      ((h.twox_128 m.module_prefix ++ h.twox_128 m.storage_prefix) ++ key_hash c key1 m.hasher)
      ++ key_hash d key2 m.key2_hasher

  -- `StorageDoubleMap::partial_key`
  unfoldable pub partial_key {ℓ} : {K : Type ℓ} → Codec K → StorageDoubleMap → K → StorageKey
  partial_key c m key =
      (h.twox_128 m.module_prefix ++ h.twox_128 m.storage_prefix) ++ key_hash c key m.hasher

  unfoldable pub get_double_map_prefix {ℓ} :
      {K : Type ℓ} → Codec K → StorageEntryMetadata → String → K → Result MetadataError StorageKey
  get_double_map_prefix c entry pallet_prefix key = elim entry.ty [
    | map_of hashers _ _ ↦ do
      hasher ← ok_or storage_type_error (get_elem? hashers 0)
      ok (
          (h.twox_128 (as_bytes pallet_prefix) ++ h.twox_128 (as_bytes entry.name))
          ++ key_hash c key hasher)
    | plain _ ↦ err storage_type_error
  ]

  unfoldable pub get_map_prefix : StorageEntryMetadata → String → Result MetadataError StorageKey
  get_map_prefix entry pallet_prefix = elim entry.ty [
    | map_of _ _ _ ↦ ok (h.twox_128 (as_bytes pallet_prefix) ++ h.twox_128 (as_bytes entry.name))
    | plain _ ↦ err storage_type_error
  ]

unfoldable pub get_double_map :
    StorageEntryMetadata → String → Result MetadataError StorageDoubleMap
get_double_map entry pallet_prefix = elim entry.ty [
  | map_of hashers _ _ ↦ do
    hasher1 ← ok_or storage_type_error (get_elem? hashers 0)
    hasher2 ← ok_or storage_type_error (get_elem? hashers 1)
    ok (record {
      module_prefix = as_bytes pallet_prefix;
      storage_prefix = as_bytes entry.name;
      hasher = hasher1;
      key2_hasher = hasher2;
    })
  | plain _ ↦ err storage_type_error
]

unfoldable pub get_map : StorageEntryMetadata → String → Result MetadataError StorageMap
get_map entry pallet_prefix = elim entry.ty [
  | map_of hashers _ _ ↦ do
    hasher ← ok_or storage_type_error (get_elem? hashers 0)
    ok (record {
      module_prefix = as_bytes pallet_prefix;
      storage_prefix = as_bytes entry.name;
      hasher = hasher;
    })
  | plain _ ↦ err storage_type_error
]

unfoldable pub get_value : StorageEntryMetadata → String → Result MetadataError StorageValue
get_value entry pallet_prefix = elim entry.ty [
  | plain _ ↦
      ok (record { module_prefix = as_bytes pallet_prefix; storage_prefix = as_bytes entry.name })
  | map_of _ _ _ ↦ err storage_type_error
]
