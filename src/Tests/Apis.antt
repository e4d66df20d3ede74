-- ===== src/Tests/Apis.antt =====
-- The Api over that node.
use mathlib.Core.Option
use fusotao_rust_client.Prelude.{
  ltb, ◌<◌, ◌^◌, Bool-cases, inl, inr, ap, arith, if◌then◌else◌, ℕ, ◌≡◌, refl, Option, none, some,
  nat_eq, string_eq, ◌↔◌,
}
use fusotao_rust_client.Prelude.Result.{ok}
use fusotao_rust_client.Prelude.HashMap.{get}
use fusotao_rust_client.Prelude.Text.{as_bytes}
use fusotao_rust_client.External.Codec.{RoundTrips}
use fusotao_rust_client.External.Runtime.{FeeDetails}
use fusotao_rust_client.Primitives.{AccountInfo}
use fusotao_rust_client.Metadata.{pallet, storage}
use fusotao_rust_client.Storage.{map_key, key_hash, get_map}
use fusotao_rust_client.Api.{RpcClient}
use fusotao_rust_client.Api.Fees.{convert_fee_details}
use fusotao_rust_client.Api.Fees.Bounds.{
  FitsInclusion, Fits, IsNumberConversion, convert_fee_details_iff,
}
use fusotao_rust_client.Api.Account.{get_nonce}
use fusotao_rust_client.Api.Account.Nonce.{HasAccounts, get_nonce_refines}
use fusotao_rust_client.Api.Storage.{get_storage_map}
use fusotao_rust_client.Api.Storage.Refines.{Finds, get_storage_map_refines}
use fusotao_rust_client.Tests.Samples.{byte, hashes}
use fusotao_rust_client.Tests.Nodes.{
  account_map, info_codec, crates, info, account_of_id, chain, client_of, api, metadata, serves,
  system_pallet, account_entry,
}

pub system_found : pallet metadata "System" ≡ ok system_pallet
unfolding pallet get
system_found = refl

pub account_stored : storage system_pallet "Account" ≡ ok account_entry
unfolding storage get
account_stored = refl

abbrev pub finds :
    {P : Type 0} (client : RpcClient crates) (signer : Option P)
    → Finds crates (api client signer) "System" "Account"
finds client signer = record {
  pallet_metadata = system_pallet;
  entry = account_entry;
  found = system_found;
  stored = account_stored;
}

pub is_map : get_map account_entry "System" ≡ ok account_map
unfolding get_map
is_map = refl

account_of_id-RoundTrips :
    (a : ℕ) (v : AccountInfo) → account_of_id a ≡ some v → RoundTrips info_codec v
account_of_id-RoundTrips a v h rest = refl

chain-map_key :
    (a : ℕ)
    → chain none (map_key hashes byte account_map a)
      ≡ Option.map info_codec.encode (account_of_id a)
unfolding map_key key_hash as_bytes
chain-map_key a = refl

pub has :
    {P : Type 0} (signer : Option P)
    → HasAccounts crates (api (client_of chain) signer) chain account_of_id
has signer = record {
  serves = serves;
  finds = finds (client_of chain) signer;
  account_map = account_map;
  is_map = is_map;
  trips = account_of_id-RoundTrips;
  holds = chain-map_key;
}

get_storage_map_refines_example :
    get_storage_map crates
      (api {P = ℕ} (client_of chain) none)
      "System"
      "Account"
      byte
      info_codec
      7
      none
    ≡ ok (some info)
get_storage_map_refines_example =
    get_storage_map_refines crates (api {P = ℕ} (client_of chain) none) chain serves "System"
      "Account" (finds (client_of chain) none) none byte info_codec account_map account_of_id is_map
      account_of_id-RoundTrips chain-map_key 7

-- The signer is the account itself.
get_nonce_refines_example :
    get_nonce crates (api (client_of chain) (some 7)) (λ account. account) ≡ ok 3
get_nonce_refines_example =
    get_nonce_refines crates (api (client_of chain) (some 7)) chain account_of_id (has (some 7))
      (λ account. account)

abbrev fees : FeeDetails ℕ
fees = record {
  inclusion_fee = some (record { base_fee = 1; len_fee = 2; adjusted_weight_fee = 3 });
  tip = 4;
}

below :
    (bound n b : ℕ) → ((if ltb n bound then some n else none) ≡ some b) ↔ ((n ≡ b) × (b < bound))
below bound n b = elim (Bool-cases (ltb n bound)) [
  | inl small ↦ rw (small) (λ h. (cc, ground (arith, small, h)), λ (same, _). ap some same)
  | inr large ↦ rw (large) (λ h. cc, λ (same, less). absurd (ground (arith, large, same, less)))
]

conversion : IsNumberConversion crates (λ n. n)
conversion n b = below (2 ^ 128) n b

convert_fee_details_iff_example : (convert_fee_details crates fees ≡ ok fees) ↔ (
    FitsInclusion crates (λ n. n) fees.inclusion_fee fees.inclusion_fee
    × Fits crates (λ n. n) fees.tip fees.tip)
convert_fee_details_iff_example = convert_fee_details_iff crates (λ n. n) fees fees conversion
