-- ===== src/Rpc/Requests.antt =====
-- src/std/rpc/json_req.rs: the requests.
use fusotao_rust_client.Prelude.{ℕ, String, Option, none, some, List, [], ◌∷◌, map}
use fusotao_rust_client.Prelude.Decimal.{to_string}
use fusotao_rust_client.Prelude.Text.{Text, codes}
use fusotao_rust_client.External.Json.{Json}
use fusotao_rust_client.Storage.{StorageKey}

abbrev pub request_transfer : ℕ
request_transfer = 3

-- How `serde` writes hashes, storage keys and numbers is a parameter.
pub record Serialize (J : Json) (Hash : Type 0) : Type 0 where
  pub hash : Hash → Json.Value J
  pub storage_key : StorageKey → Json.Value J
  pub number : ℕ → Json.Value J

module _ (J : Json) {Hash : Type 0} (S : Serialize J Hash) where
  open J use {Value, null, string, array, object}

  -- `to_value` of an `Option`
  abbrev optional {ℓ} : {A : Type ℓ} → (A → Value) → Option A → Value
  optional f none = null
  optional f (some a) = f a

  unfoldable pub json_req : String → Value → ℕ → Value
  unfolding to_string
  json_req method params id = object (
      ("method", string (codes method))
      ∷ ("params", params)
      ∷ ("jsonrpc", string (codes "2.0"))
      ∷ ("id", string (codes (to_string id)))
      ∷ [])

  unfoldable pub chain_get_header : Option Hash → Value
  unfolding json_req
  chain_get_header hash = json_req "chain_getHeader" (array (optional S.hash hash ∷ [])) 1

  unfoldable pub chain_get_block_hash_with_id : Option ℕ → ℕ → Value
  unfolding json_req
  chain_get_block_hash_with_id number id =
      json_req "chain_getBlockHash" (array (optional S.number number ∷ [])) id

  unfoldable pub chain_get_block_hash : Option ℕ → Value
  unfolding chain_get_block_hash_with_id
  chain_get_block_hash number = chain_get_block_hash_with_id number 1

  unfoldable pub chain_get_genesis_hash : Value
  unfolding chain_get_block_hash
  chain_get_genesis_hash = chain_get_block_hash (some 0)

  unfoldable pub chain_get_block : Option Hash → Value
  unfolding json_req
  chain_get_block hash = json_req "chain_getBlock" (array (optional S.hash hash ∷ [])) 1

  unfoldable pub chain_get_finalized_head : Value
  unfolding json_req
  chain_get_finalized_head = json_req "chain_getFinalizedHead" null 1

  unfoldable pub chain_subscribe_finalized_heads : Value
  unfolding json_req
  chain_subscribe_finalized_heads = json_req "chain_subscribeFinalizedHeads" null 1

  unfoldable pub payment_query_fee_details : Text → Option Hash → Value
  unfolding json_req
  payment_query_fee_details xthex_prefixed at_block =
      json_req "payment_queryFeeDetails"
        (array (string xthex_prefixed ∷ optional S.hash at_block ∷ [])) 1

  unfoldable pub payment_query_info : Text → Option Hash → Value
  unfolding json_req
  payment_query_info xthex_prefixed at_block =
      json_req "payment_queryInfo" (array (string xthex_prefixed ∷ optional S.hash at_block ∷ [])) 1

  unfoldable pub state_get_metadata_with_id : ℕ → Value
  unfolding json_req
  state_get_metadata_with_id id = json_req "state_getMetadata" (array (null ∷ [])) id

  unfoldable pub state_get_metadata : Value
  unfolding state_get_metadata_with_id
  state_get_metadata = state_get_metadata_with_id 1

  unfoldable pub state_get_runtime_version_with_id : ℕ → Value
  unfolding json_req
  state_get_runtime_version_with_id id = json_req "state_getRuntimeVersion" (array (null ∷ [])) id

  unfoldable pub state_get_runtime_version : Value
  unfolding state_get_runtime_version_with_id
  state_get_runtime_version = state_get_runtime_version_with_id 1

  unfoldable pub state_subscribe_storage_with_id : List StorageKey → ℕ → Value
  unfolding json_req
  state_subscribe_storage_with_id key id =
      json_req "state_subscribeStorage" (array (array (map S.storage_key key) ∷ [])) id

  unfoldable pub state_subscribe_storage : List StorageKey → Value
  unfolding state_subscribe_storage_with_id
  state_subscribe_storage key = state_subscribe_storage_with_id key 1

  unfoldable pub state_get_storage_with_id : StorageKey → Option Hash → ℕ → Value
  unfolding json_req
  state_get_storage_with_id key at_block id =
      json_req "state_getStorage" (array (S.storage_key key ∷ optional S.hash at_block ∷ [])) id

  unfoldable pub state_get_storage : StorageKey → Option Hash → Value
  unfolding json_req
  state_get_storage key at_block =
      json_req "state_getStorage" (array (S.storage_key key ∷ optional S.hash at_block ∷ [])) 1

  unfoldable pub state_get_read_proof : List StorageKey → Option Hash → Value
  unfolding json_req
  state_get_read_proof keys at_block =
      json_req "state_getReadProof"
        (array (array (map S.storage_key keys) ∷ optional S.hash at_block ∷ [])) 1

  unfoldable pub state_get_keys : StorageKey → Option Hash → Value
  unfolding json_req
  state_get_keys key at_block =
      json_req "state_getKeys" (array (S.storage_key key ∷ optional S.hash at_block ∷ [])) 1

  unfoldable pub state_get_pairs : StorageKey → Option Hash → Value
  unfolding json_req
  state_get_pairs key at_block =
      json_req "state_getPairs" (array (S.storage_key key ∷ optional S.hash at_block ∷ [])) 1

  unfoldable pub author_submit_extrinsic_with_id : Text → ℕ → Value
  unfolding json_req
  author_submit_extrinsic_with_id xthex_prefixed id =
      json_req "author_submitExtrinsic" (array (string xthex_prefixed ∷ [])) id

  unfoldable pub author_submit_and_watch_extrinsic_with_id : Text → ℕ → Value
  unfolding json_req
  author_submit_and_watch_extrinsic_with_id xthex_prefixed id =
      json_req "author_submitAndWatchExtrinsic" (array (string xthex_prefixed ∷ [])) id

  unfoldable pub author_submit_extrinsic : Text → Value
  unfolding author_submit_extrinsic_with_id
  author_submit_extrinsic xthex_prefixed =
      author_submit_extrinsic_with_id xthex_prefixed request_transfer

  unfoldable pub author_submit_and_watch_extrinsic : Text → Value
  unfolding author_submit_and_watch_extrinsic_with_id
  author_submit_and_watch_extrinsic xthex_prefixed =
      author_submit_and_watch_extrinsic_with_id xthex_prefixed request_transfer
