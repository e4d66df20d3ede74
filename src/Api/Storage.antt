-- ===== src/Api/Storage.antt =====
-- The storage requests of src/std/mod.rs: values, maps and double maps by their names, their
-- proofs, keys and pairs by a prefix, and constants.
pub mod Chain
pub mod Refines
pub mod Keys
use fusotao_rust_client.Prelude.{ℕ, String, Option, none, some, List, [], ◌∷◌, string_eq}
use fusotao_rust_client.Prelude.HashMap.{get}
use fusotao_rust_client.Prelude.Result.{
  Result, ok, err, ◌>>=◌, map_err, ok_or, collect_results, traverse,
}
use fusotao_rust_client.Prelude.Text.{Text, Bytes}
use fusotao_rust_client.External.Codec.{Codec}
use fusotao_rust_client.External.Serde.{Serde}
use fusotao_rust_client.Error.{constant_not_found}
use fusotao_rust_client.Storage.{StorageKey}
use fusotao_rust_client.Metadata.{pallet}
use fusotao_rust_client.Metadata.StorageKeys.{
  storage_value_key, storage_map_key, storage_map_key_prefix, storage_double_map_key,
  storage_double_map_partial_key,
}
use fusotao_rust_client.Rpc.ApiError.{metadata, deserializing}
use fusotao_rust_client.Rpc.Requests.{
  state_get_storage, state_get_pairs, state_get_read_proof, state_get_keys,
}
use fusotao_rust_client.Api.{Crates, ApiResult, Api, bytes_of, decoded, get_request}

-- `Vec<u8>` for a key and for its value
abbrev pub StoragePair : Type 0
StoragePair = Bytes × Bytes

module _ (C : Crates) {P : Type 0} (api : Api C P) where
  unfoldable pub get_opaque_storage_by_key_hash :
      StorageKey → Option Bytes → ApiResult C (Option Bytes)
  unfolding get_request
  get_opaque_storage_by_key_hash key at_block = do
    s ← get_request C api (state_get_storage C.json C.serialize key at_block)
    traverse (bytes_of C) s

  unfoldable pub get_storage_by_key_hash :
      {V : Type 0} → Codec V → StorageKey → Option Bytes → ApiResult C (Option V)
  unfolding get_opaque_storage_by_key_hash
  get_storage_by_key_hash c key at_block = do
    s ← get_opaque_storage_by_key_hash key at_block
    traverse (decoded C c) s

  -- `deser.into_iter()` with `from_hex` on both texts
  abbrev pub pair_of : Text × Text → ApiResult C StoragePair
  pair_of (k, v) = do key ← bytes_of C k; value ← bytes_of C v; ok (key, value)

  unfoldable pub get_opaque_storage_pairs_by_key_hash :
      StorageKey → Option Bytes → ApiResult C (Option (List StoragePair))
  unfolding get_request collect_results
  get_opaque_storage_pairs_by_key_hash key at_block = do
    s ← get_request C api (state_get_pairs C.json C.serialize key at_block)
    traverse
        (λ storage. do
          deser ← map_err deserializing (C.serde.pairs storage)
          collect_results pair_of deser)
        s

  unfoldable pub get_storage_proof_by_keys :
      List StorageKey → Option Bytes → ApiResult C (Option (Serde.ReadProof C.serde))
  unfolding get_request
  get_storage_proof_by_keys keys at_block = do
    p ← get_request C api (state_get_read_proof C.json C.serialize keys at_block)
    traverse (λ proof. map_err deserializing (C.serde.read_proof proof)) p

  unfoldable pub get_keys : StorageKey → Option Bytes → ApiResult C (Option (List Bytes))
  unfolding get_request collect_results
  get_keys key at_block = do
    k ← get_request C api (state_get_keys C.json C.serialize key at_block)
    traverse
        (λ keys. do
          deser ← map_err deserializing (C.serde.strings keys)
          collect_results (bytes_of C) deser)
        k

  unfoldable pub get_constant : {V : Type 0} → Codec V → String → String → ApiResult C V
  unfolding pallet get
  get_constant c pallet_name constant = do
    p ← map_err metadata (pallet api.metadata pallet_name)
    found ← map_err metadata (ok_or (constant_not_found constant) (get constant p.constants))
    decoded C c found.value

  unfoldable pub get_existential_deposit : ApiResult C ℕ
  unfolding get_constant
  get_existential_deposit = get_constant C.balance "Balances" "ExistentialDeposit"

  module _ (storage_prefix storage_key_name : String) where
    unfoldable pub get_storage_value :
        {V : Type 0} → Codec V → Option Bytes → ApiResult C (Option V)
    unfolding storage_value_key get_storage_by_key_hash
    get_storage_value c at_block = do
      storagekey ←
          map_err metadata
            (storage_value_key C.hashing api.metadata storage_prefix storage_key_name)
      get_storage_by_key_hash c storagekey at_block

    unfoldable pub get_storage_map :
        {K V : Type 0} → Codec K → Codec V → K → Option Bytes → ApiResult C (Option V)
    unfolding storage_map_key get_storage_by_key_hash
    get_storage_map k c map_key at_block = do
      storagekey ←
          map_err metadata
            (storage_map_key C.hashing api.metadata storage_prefix storage_key_name k map_key)
      get_storage_by_key_hash c storagekey at_block

    unfoldable pub get_storage_map_key_prefix : ApiResult C StorageKey
    unfolding storage_map_key_prefix
    get_storage_map_key_prefix =
        map_err metadata
          (storage_map_key_prefix C.hashing api.metadata storage_prefix storage_key_name)

    unfoldable pub get_storage_double_map_partial_prefix :
        {K : Type 0} → Codec K → K → ApiResult C StorageKey
    unfolding storage_double_map_partial_key
    get_storage_double_map_partial_prefix k first = map_err metadata (
        storage_double_map_partial_key C.hashing api.metadata storage_prefix storage_key_name k
          first)

    unfoldable pub get_storage_double_map :
        {K Q V : Type 0}
        → Codec K
        → Codec Q
        → Codec V
        → K
        → Q
        → Option Bytes
        → ApiResult C (Option V)
    unfolding storage_double_map_key get_storage_by_key_hash
    get_storage_double_map k q c first second at_block = do
      storagekey ← map_err metadata (
          storage_double_map_key C.hashing api.metadata storage_prefix storage_key_name k q first
            second)
      get_storage_by_key_hash c storagekey at_block

    unfoldable pub get_storage_value_proof :
        Option Bytes → ApiResult C (Option (Serde.ReadProof C.serde))
    unfolding storage_value_key get_storage_proof_by_keys
    get_storage_value_proof at_block = do
      storagekey ←
          map_err metadata
            (storage_value_key C.hashing api.metadata storage_prefix storage_key_name)
      get_storage_proof_by_keys (storagekey ∷ []) at_block

    unfoldable pub get_storage_map_proof :
        {K : Type 0} → Codec K → K → Option Bytes → ApiResult C (Option (Serde.ReadProof C.serde))
    unfolding storage_map_key get_storage_proof_by_keys
    get_storage_map_proof k map_key at_block = do
      storagekey ←
          map_err metadata
            (storage_map_key C.hashing api.metadata storage_prefix storage_key_name k map_key)
      get_storage_proof_by_keys (storagekey ∷ []) at_block

    unfoldable pub get_storage_double_map_proof :
        {K Q : Type 0}
        → Codec K
        → Codec Q
        → K
        → Q
        → Option Bytes
        → ApiResult C (Option (Serde.ReadProof C.serde))
    unfolding storage_double_map_key get_storage_proof_by_keys
    get_storage_double_map_proof k q first second at_block = do
      storagekey ← map_err metadata (
          storage_double_map_key C.hashing api.metadata storage_prefix storage_key_name k q first
            second)
      get_storage_proof_by_keys (storagekey ∷ []) at_block
