-- ===== src/Api/Account.antt =====
-- The signer's account, in src/std/mod.rs. `P` is the type of key pairs, and `account_of` gives the
-- account of a pair's public key.
pub mod Nonce
use mathlib.Core.Option
use fusotao_rust_client.Prelude.{ℕ, Option, none, some}
use fusotao_rust_client.Prelude.Result.{Result, ok, err, ◌>>=◌, map_err, map_ok}
use fusotao_rust_client.Prelude.Outcome.{Outcome}
use fusotao_rust_client.Primitives.{AccountData, AccountInfo}
use fusotao_rust_client.Metadata.StorageKeys.{storage_map_key}
use fusotao_rust_client.Rpc.ApiError.{metadata, no_signer}
use fusotao_rust_client.Api.{Crates, ApiResult, Api}
use fusotao_rust_client.Api.Storage.{get_storage_by_key_hash}

module _ (C : Crates) {P : Type 0} (api : Api C P) where
  unfoldable pub get_account_info : Crates.AccountId C → ApiResult C (Option AccountInfo)
  unfolding storage_map_key get_storage_by_key_hash
  get_account_info address = do
    storagekey ←
        map_err metadata
          (storage_map_key C.hashing api.metadata "System" "Account" C.account_id address)
    get_storage_by_key_hash C api C.account_info storagekey none

  unfoldable pub get_account_data : Crates.AccountId C → ApiResult C (Option AccountData)
  unfolding get_account_info
  get_account_data address =
      map_ok (Option.map (λ (i : AccountInfo). i.account_data)) (get_account_info address)

  abbrev pub nonce_or_zero : Option AccountInfo → ℕ
  nonce_or_zero none = 0
  nonce_or_zero (some acc) = acc.nonce

  -- The signer is there when its account is unwrapped.
  abbrev pub nonce_of : Option (Crates.AccountId C) → ApiResult C ℕ
  nonce_of none = err no_signer
  nonce_of (some account) = map_ok nonce_or_zero (get_account_info account)

  module _ (account_of : P → Crates.AccountId C) where
    unfoldable pub signer_account : Option (Crates.AccountId C)
    signer_account = Option.map account_of api.signer

    unfoldable pub get_nonce : ApiResult C ℕ
    unfolding signer_account get_account_info
    get_nonce = nonce_of signer_account
