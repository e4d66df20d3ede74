-- ===== src/Tests/Composed.antt =====
-- Maps of two keys, keys that are listed, and an extrinsic that is composed over the node.
use mathlib.Core.Option
use fusotao_rust_client.Prelude.{
  ℕ, ◌<◌, ◌≡◌, refl, none, some, List, [], ◌∷◌, ◌++◌, map, Has, here, there, string_eq, true, arith,
}
use fusotao_rust_client.Prelude.Result.{ok, err, collect_results}
use fusotao_rust_client.Prelude.Outcome.{Outcome}
use fusotao_rust_client.Prelude.HashMap.{get}
use fusotao_rust_client.Prelude.Text.{Bytes, Text, as_bytes}
use fusotao_rust_client.External.Codec.{Codec}
use fusotao_rust_client.External.FrameMetadata.{
  StorageEntryMetadata, StorageEntryModifier, map_of, twox64_concat, identity, blake2_128_concat,
}
use fusotao_rust_client.External.Hex.{IsLawfulHex}
use fusotao_rust_client.Metadata.{pallet, storage}
use fusotao_rust_client.Storage.{
  StorageDoubleMap, map_key, double_map_key, key_hash, get_double_map,
}
use fusotao_rust_client.Decoder.Identifiers.{extract_map_identifier}
use fusotao_rust_client.Extrinsic.{SignedPayload, new_extra, using_encoded}
use fusotao_rust_client.Extrinsic.Compose.{Signer, CallIndex, compose_call}
use fusotao_rust_client.Extrinsic.Compose.Online.{compose_extrinsic, compose_extrinsic_signed}
use fusotao_rust_client.Api.{RpcClient, null_or}
use fusotao_rust_client.Api.Storage.{get_storage_double_map, get_keys}
use fusotao_rust_client.Api.Storage.Refines.{Finds, get_storage_double_map_refines}
use fusotao_rust_client.Api.Storage.Keys.{key_text, get_keys_extract}
use fusotao_rust_client.Rpc.ApiError.{disconnected}
use fusotao_rust_client.Tests.Samples.{
  byte, byte-RoundTrips, slice, slice-IsLawfulInput, hashes, hashes-HasDigestSizes, hex, AreBytes,
  digest-AreBytes, append-AreBytes, hex-IsLawfulHex, end_of_input,
}
use fusotao_rust_client.Tests.Calls.{balances_pallet}
use fusotao_rust_client.Tests.Extrinsics.{text_eq_refl, verify}
use fusotao_rust_client.Tests.Nodes.{
  crates, account_map, account_of_id, five_if_equal, pair_chain, chain, client_of, api, metadata,
  pair_chain-Serves,
}
use fusotao_rust_client.Tests.Apis.{has}

abbrev reserves_entry : StorageEntryMetadata
reserves_entry = record {
  name = "Reserves";
  modifier = StorageEntryModifier.default;
  ty = map_of (twox64_concat ∷ identity ∷ []) 1 1;
  default = 0 ∷ [];
}

abbrev reserves_map : StorageDoubleMap
reserves_map = record {
  module_prefix = as_bytes "Balances";
  storage_prefix = as_bytes "Reserves";
  hasher = twox64_concat;
  key2_hasher = identity;
}

balances_found : pallet metadata "Balances" ≡ ok balances_pallet
unfolding pallet get
balances_found = refl

reserves_stored : storage balances_pallet "Reserves" ≡ ok reserves_entry
unfolding storage get
reserves_stored = refl

reserves_double : get_double_map reserves_entry "Balances" ≡ ok reserves_map
unfolding get_double_map
reserves_double = refl

abbrev finds : Finds crates (api {P = ℕ} (client_of pair_chain) none) "Balances" "Reserves"
finds = record {
  pallet_metadata = balances_pallet;
  entry = reserves_entry;
  found = balances_found;
  stored = reserves_stored;
}

pair_chain-double_map_key :
    (a b : ℕ)
    → pair_chain none (double_map_key hashes byte byte reserves_map a b)
      ≡ Option.map byte.encode (five_if_equal a b)
unfolding double_map_key key_hash as_bytes
pair_chain-double_map_key a b = refl

get_storage_double_map_refines_example :
    get_storage_double_map crates
      (api {P = ℕ} (client_of pair_chain) none)
      "Balances"
      "Reserves"
      byte
      byte
      byte
      4
      4
      none
    ≡ ok (some 5)
get_storage_double_map_refines_example =
    get_storage_double_map_refines crates (api {P = ℕ} (client_of pair_chain) none) pair_chain
      pair_chain-Serves "Balances" "Reserves" finds none byte byte byte reserves_map five_if_equal
      reserves_double (λ a b v h. byte-RoundTrips v) pair_chain-double_map_key 4 4

-- A client that lists the keys of the accounts 7 and 9, whatever the request.
abbrev listing : Text
listing = key_text crates byte account_map 7 ++ b',' ∷ key_text crates byte account_map 9

abbrev lister : RpcClient crates
lister = record { get_request = λ _. ok listing; send_extrinsic = λ _ _. err disconnected }

listing_split :
    crates.serde.strings listing ≡ ok (map (key_text crates byte account_map) (7 ∷ 9 ∷ []))
unfolding map_key key_hash as_bytes
listing_split = refl

listing_there : null_or listing ≡ some listing
unfolding map_key key_hash as_bytes
listing_there = refl

account_key-AreBytes : (key : ℕ) → key < 256 → AreBytes (map_key hashes byte account_map key)
unfolding map_key key_hash as_bytes
account_key-AreBytes key small =
    append-AreBytes (hashes.twox_128 (as_bytes "System") ++ hashes.twox_128 (as_bytes "Account"))
      (hashes.blake2_128 (key ∷ []) ++ key ∷ [])
      (append-AreBytes (hashes.twox_128 (as_bytes "System")) (hashes.twox_128 (as_bytes "Account"))
        (digest-AreBytes 16 (as_bytes "System") (
          omega arith,
          (omega arith, (omega arith, (omega arith, (omega arith, (omega arith, tt))))),
        ))
        (digest-AreBytes 16 (as_bytes "Account") (
          omega arith,
          (
            omega arith,
            (omega arith, (omega arith, (omega arith, (omega arith, (omega arith, tt))))),
          ),
        )))
      (append-AreBytes (hashes.blake2_128 (key ∷ [])) (key ∷ [])
        (digest-AreBytes 16 (key ∷ []) (small, tt)) (small, tt))

key_written :
    (key : ℕ) → Has key (7 ∷ 9 ∷ []) → IsLawfulHex hex (map_key hashes byte account_map key)
key_written key has =
    hex-IsLawfulHex (map_key hashes byte account_map key) (account_key-AreBytes key (below key has))
  where
    below : (key : ℕ) → Has key (7 ∷ 9 ∷ []) → key < 256
    below key here = omega arith
    below key (there here) = omega arith
    below key (there (there h)) = elim h [ ]

get_keys_extract_example :
    (listed : List Bytes) × (get_keys crates (api {P = ℕ} lister none) [] none ≡ ok (some listed))
    × (collect_results (extract_map_identifier slice byte blake2_128_concat) listed
        ≡ ok ((7, []) ∷ (9, []) ∷ []))
get_keys_extract_example =
    get_keys_extract crates byte account_map slice slice-IsLawfulInput hashes-HasDigestSizes tt
      (api {P = ℕ} lister none) (7 ∷ 9 ∷ []) [] none listing refl listing_there listing_split
      key_written (λ key has. byte-RoundTrips key)

abbrev payload : Codec (SignedPayload (CallIndex × ℕ) ℕ Bytes)
payload = record {
  encode = λ (((pallet_index, call_index), args), extra, additional).
      pallet_index
      ∷ call_index
      ∷ args
      ∷ extra.era
      ∷ extra.nonce
      ∷ extra.tip
      ∷ additional.spec_version
      ∷ additional.transaction_version
      ∷ (additional.genesis_hash ++ additional.current_hash);
  decode = λ _. err end_of_input;
}

-- The signer is the account 7, and signs by the bytes themselves.
abbrev signer : Signer ℕ Bytes
signer = record { address = 7; sign = λ bytes. bytes }

transfer_composed : compose_call {C = ℕ} metadata "Balances" "transfer" 44 ≡ Outcome.ok ((5, 3), 44)
unfolding compose_call pallet get
transfer_composed = refl

compose_extrinsic_signed_example :
    (signature : Bytes) × (compose_extrinsic crates payload
        (λ s. s.address)
        0
        (api (client_of chain) (some signer))
        "Balances"
        "transfer"
        44
      ≡ Outcome.ok
          (record { signature = some (7, signature, new_extra 0 3); function = ((5, 3), 44) }))
    × (verify 7
          (using_encoded hashes payload
            (
              ((5, 3), 44),
              new_extra 0 3,
              record {
                spec_version = 2;
                transaction_version = 3;
                genesis_hash = 100 ∷ [];
                current_hash = 100 ∷ [];
              },
            )
            (λ bytes. bytes))
          signature
        ≡ true)
compose_extrinsic_signed_example =
    compose_extrinsic_signed crates payload (λ s. s.address) 0 (api (client_of chain) (some signer))
      chain account_of_id verify signer "Balances" "transfer" 44 ((5, 3), 44) (has (some signer))
      transfer_composed refl text_eq_refl
