-- ===== src/Api/Storage/Refines.antt =====
-- The typed getters, against the abstract values and maps that the chain holds.
use mathlib.Core.Option
use fusotao_rust_client.Prelude.{String, ◌≡◌, Option, some}
use fusotao_rust_client.Prelude.Result.{ok}
use fusotao_rust_client.Prelude.Text.{Bytes}
use fusotao_rust_client.External.Codec.{Codec, RoundTrips}
use fusotao_rust_client.External.FrameMetadata.{StorageEntryMetadata}
use fusotao_rust_client.Storage.{
  StorageValue, StorageMap, StorageDoubleMap, get_value, get_map, get_double_map, value_key,
  map_key, double_map_key,
}
use fusotao_rust_client.Metadata.{PalletMetadata, pallet, storage}
use fusotao_rust_client.Metadata.StorageKeys.{
  storage_value_key, storage_map_key, storage_double_map_key,
}
use fusotao_rust_client.Api.{Crates, Api}
use fusotao_rust_client.Api.Storage.{get_storage_value, get_storage_map, get_storage_double_map}
use fusotao_rust_client.Api.Storage.Chain.{Chain, Serves, get_storage_by_key_hash-Chain}

-- The entry that the metadata has under the two names.
pub record Finds (C : Crates) {P : Type 0} (api : Api C P) (prefix name : String) : Type 0 where
  pub pallet_metadata : PalletMetadata
  pub entry : StorageEntryMetadata
  pub found : pallet api.metadata prefix ≡ ok pallet_metadata
  pub stored : storage pallet_metadata name ≡ ok entry

module _ (C : Crates) {P : Type 0} (api : Api C P) (chain : Chain)
    (serves : Serves C api.client chain) (prefix name : String) (finds : Finds C api prefix name)
    (at_block : Option Bytes) where
  -- If the client answers from a chain that holds the encoding of an optional value under the
  -- entry's key, and the codec reads the value back, `get_storage_value` returns this value.
  pub get_storage_value_refines :
      {V : Type 0} (c : Codec V) (s : StorageValue) (value : Option V)
      → get_value finds.entry prefix ≡ ok s
      → ((v : V) → value ≡ some v → RoundTrips c v)
      → chain at_block (value_key C.hashing s) ≡ Option.map c.encode value
      → get_storage_value C api prefix name c at_block ≡ ok value
  unfolding get_storage_value storage_value_key
  get_storage_value_refines c s value got trips holds = rw (
    finds.found,
    finds.stored,
    got,
    get_storage_by_key_hash-Chain C api chain serves c value (value_key C.hashing s) at_block trips
        holds,
  )

  -- If the client answers from a chain that represents an abstract map at a storage map's entry,
  -- with the encoding of each value under its key and nothing under the other keys, the metadata
  -- has the entry under its names, and the codec reads the values back, then `get_storage_map`
  -- returns for every key what the abstract map has, a value or none.
  pub get_storage_map_refines :
      {K V : Type 0} (k : Codec K) (c : Codec V) (s : StorageMap) (f : K → Option V)
      → get_map finds.entry prefix ≡ ok s
      → ((key : K) (v : V) → f key ≡ some v → RoundTrips c v)
      → ((key : K) → chain at_block (map_key C.hashing k s key) ≡ Option.map c.encode (f key))
      → (key : K) → get_storage_map C api prefix name k c key at_block ≡ ok (f key)
  unfolding get_storage_map storage_map_key
  get_storage_map_refines k c s f got trips holds key = rw (
    finds.found,
    finds.stored,
    got,
    get_storage_by_key_hash-Chain C api chain serves c (f key) (map_key C.hashing k s key) at_block
        (trips key) (holds key),
  )

  -- If the client answers from a chain that represents an abstract map of two keys at the entry of
  -- a double map, with the encoding of each value under its two keys and nothing under the other
  -- pairs, the metadata has the entry under its names, and the codec reads the values back, then
  -- `get_storage_double_map` returns for every two keys what the abstract map has, a value or none.
  pub get_storage_double_map_refines :
      {K Q V : Type 0} (k : Codec K) (q : Codec Q) (c : Codec V) (s : StorageDoubleMap)
      (f : K → Q → Option V)
      → get_double_map finds.entry prefix ≡ ok s
      → ((key : K) (key2 : Q) (v : V) → f key key2 ≡ some v → RoundTrips c v)
      → ((key : K) (key2 : Q)
          → chain at_block (double_map_key C.hashing k q s key key2)
            ≡ Option.map c.encode (f key key2))
      → (key : K) (key2 : Q)
      → get_storage_double_map C api prefix name k q c key key2 at_block ≡ ok (f key key2)
  unfolding get_storage_double_map storage_double_map_key
  get_storage_double_map_refines k q c s f got trips holds key key2 = rw (
    finds.found,
    finds.stored,
    got,
    get_storage_by_key_hash-Chain C api chain serves c (f key key2)
        (double_map_key C.hashing k q s key key2) at_block (trips key key2) (holds key key2),
  )
