-- ===== src/Api/Account/Nonce.antt =====
-- The nonce of the signer, against the accounts that the chain holds.
use mathlib.Core.Option
use fusotao_rust_client.Prelude.{ℕ, ◌≡◌, refl, ap, ◌∙◌, Option, none, some}
use fusotao_rust_client.Prelude.Result.{ok, err}
use fusotao_rust_client.External.Codec.{RoundTrips}
use fusotao_rust_client.Primitives.{AccountInfo}
use fusotao_rust_client.Storage.{StorageMap, get_map, map_key}
use fusotao_rust_client.Rpc.ApiError.{no_signer}
use fusotao_rust_client.Api.{Crates, ApiResult, Api}
use fusotao_rust_client.Api.Storage.{get_storage_map}
use fusotao_rust_client.Api.Storage.Chain.{Chain, Serves}
use fusotao_rust_client.Api.Storage.Refines.{Finds, get_storage_map_refines}
use fusotao_rust_client.Api.Account.{
  get_account_info, nonce_or_zero, nonce_of, signer_account, get_nonce,
}

-- The next nonce of an account on the chain; one that is not there has sent nothing.
abbrev pub chain_nonce : Option AccountInfo → ℕ
chain_nonce none = 0
chain_nonce (some info) = info.nonce

-- The chain's accounts, at the best block, are those of the function.
pub record HasAccounts (C : Crates) {P : Type 0} (api : Api C P) (chain : Chain)
    (accounts : Crates.AccountId C → Option AccountInfo) : Type 0 where
  pub serves : Serves C api.client chain
  pub finds : Finds C api "System" "Account"
  pub account_map : StorageMap
  pub is_map : get_map finds.entry "System" ≡ ok account_map
  pub trips :
      (a : Crates.AccountId C) (info : AccountInfo)
      → accounts a ≡ some info
      → RoundTrips C.account_info info
  pub holds :
      (a : Crates.AccountId C)
      → chain none (map_key C.hashing C.account_id account_map a)
        ≡ Option.map C.account_info.encode (accounts a)

module _ (C : Crates) {P : Type 0} (api : Api C P) (chain : Chain)
    (accounts : Crates.AccountId C → Option AccountInfo)
    (has : HasAccounts C api chain accounts) where
  get_account_info-get_storage_map :
      (a : Crates.AccountId C)
      → get_account_info C api a
        ≡ get_storage_map C api "System" "Account" C.account_id C.account_info a none
  unfolding get_account_info get_storage_map
  get_account_info-get_storage_map a = refl

  pub get_account_info_refines :
      (a : Crates.AccountId C) → get_account_info C api a ≡ ok (accounts a)
  get_account_info_refines a =
      get_account_info-get_storage_map a
      ∙ get_storage_map_refines C api chain has.serves "System" "Account" has.finds none
          C.account_id C.account_info has.account_map accounts has.is_map has.trips has.holds a

  nonce_or_zero-chain_nonce : (o : Option AccountInfo) → nonce_or_zero C api o ≡ chain_nonce o
  nonce_or_zero-chain_nonce none = refl
  nonce_or_zero-chain_nonce (some info) = refl

  abbrev pub nonce_in : Option (Crates.AccountId C) → ApiResult C ℕ
  nonce_in none = err no_signer
  nonce_in (some a) = ok (chain_nonce (accounts a))

  nonce_of-nonce_in : (a : Option (Crates.AccountId C)) → nonce_of C api a ≡ nonce_in a
  nonce_of-nonce_in none = refl
  nonce_of-nonce_in (some a) =
      rw (get_account_info_refines a) (ap ok (nonce_or_zero-chain_nonce (accounts a)))

  -- If the client answers from a chain that represents a map of accounts at the entry `Account` of
  -- the pallet `System`, which the metadata has as a map, and the codec reads the accounts back,
  -- then `get_nonce` fails where no signer is set, and otherwise returns the nonce that the
  -- signer's account has on the chain, or zero where the chain has no such account.
  pub get_nonce_refines :
      (account_of : P → Crates.AccountId C)
      → get_nonce C api account_of ≡ nonce_in (Option.map account_of api.signer)
  unfolding get_nonce signer_account
  get_nonce_refines account_of = nonce_of-nonce_in (Option.map account_of api.signer)
