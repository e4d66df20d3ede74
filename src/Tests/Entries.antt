-- ===== src/Tests/Entries.antt =====
-- Storage keys by the names of a runtime's entries, and a module error.
use fusotao_rust_client.Prelude.{◌≡◌, refl, [], ◌∷◌, ◌++◌, here, string_eq}
use fusotao_rust_client.Prelude.HashMap.{get}
use fusotao_rust_client.Prelude.Result.{ok}
use fusotao_rust_client.Prelude.Text.{as_bytes}
use fusotao_rust_client.External.Runtime.{DispatchError}
use fusotao_rust_client.Error.{RuntimeError}
use fusotao_rust_client.Dispatch.{from_dispatch}
use fusotao_rust_client.Dispatch.Laws.{from_dispatch_named}
use fusotao_rust_client.Storage.{
  StorageKey, key_hash, get_value, value_key, get_map, map_key, get_double_map, double_map_key,
}
use fusotao_rust_client.Metadata.{pallet, storage}
use fusotao_rust_client.Metadata.Parse.{get_type_def_variant}
use fusotao_rust_client.Metadata.Tables.{Declared}
use fusotao_rust_client.Metadata.StorageKeys.{
  storage_value_key, storage_map_key, storage_double_map_key,
}
use fusotao_rust_client.Tests.Samples.{byte, hashes}
use fusotao_rust_client.Tests.Calls.{
  runtime, node_metadata, built, unambiguous, balances, transfer, registry,
}

abbrev issuance_key : StorageKey
issuance_key = hashes.twox_128 (as_bytes "Balances") ++ hashes.twox_128 (as_bytes "TotalIssuance")

issuance_found : storage_value_key hashes node_metadata "Balances" "TotalIssuance" ≡ ok issuance_key
unfolding storage_value_key pallet storage get get_value value_key
issuance_found = refl

abbrev locks_key : StorageKey
locks_key =
    (hashes.twox_128 (as_bytes "Balances") ++ hashes.twox_128 (as_bytes "Locks"))
    ++ (hashes.blake2_128 (7 ∷ []) ++ 7 ∷ [])

locks_found : storage_map_key hashes node_metadata "Balances" "Locks" byte 7 ≡ ok locks_key
unfolding storage_map_key pallet storage get get_map map_key key_hash
locks_found = refl

abbrev reserves_key : StorageKey
reserves_key =
    ((hashes.twox_128 (as_bytes "Balances") ++ hashes.twox_128 (as_bytes "Reserves"))
      ++ (hashes.twox_64 (7 ∷ []) ++ 7 ∷ []))
    ++ (9 ∷ [])

reserves_found :
    storage_double_map_key hashes node_metadata "Balances" "Reserves" byte byte 7 9
    ≡ ok reserves_key
unfolding storage_double_map_key pallet storage get get_double_map double_map_key key_hash
reserves_found = refl

enum_found : get_type_def_variant registry 0 ≡ ok (transfer ∷ [])
unfolding get_type_def_variant
enum_found = refl

transfer-Declared : Declared registry (λ q. q.error) (balances ∷ []) balances transfer
transfer-Declared = record {
  listed = here;
  type_id = 0;
  selected = refl;
  variants = transfer ∷ [];
  resolved = enum_found;
  member = here;
}

from_dispatch_named_example :
    from_dispatch node_metadata (DispatchError.module_error 5 (3, 0, 0, 0))
    ≡ ok (
        RuntimeError.module_error
          (record { pallet = "Balances"; error = "transfer"; description = [] }))
from_dispatch_named_example =
    from_dispatch_named runtime node_metadata balances transfer 0 0 0 built
      (unambiguous (λ q. q.error) refl) transfer-Declared
