-- ===== src/Metadata.antt =====
-- node-api/src/metadata.rs: the tables of a runtime's pallets, calls, events and errors, and the
-- look-ups in them.
pub mod Parse
pub mod StorageKeys
pub mod Resolves
pub mod Tables
pub mod Lookup
pub mod Listing
pub mod Print
pub mod Calls
pub mod Entries
use fusotao_rust_client.Prelude.{ℕ, String, Bool, Option, List, [], ◌∷◌, ◌++◌, map}
use fusotao_rust_client.Prelude.{◌==◌, nat_eq, string_eq, pair_eq, if◌then◌else◌}
use fusotao_rust_client.Prelude.Result.{Result, ok, ◌>>=◌, ok_or}
use fusotao_rust_client.Prelude.HashMap.{HashMap, get}
use fusotao_rust_client.Prelude.Text.{Bytes}
use fusotao_rust_client.External.Codec.{Codec}
use fusotao_rust_client.External.FrameMetadata.{
  Variant, RegistryType, StorageEntryMetadata, PalletConstantMetadata, RuntimeMetadataV14,
}
use fusotao_rust_client.Error.{
  MetadataError, pallet_not_found, callable_not_found, event_not_found, error_not_found,
  call_not_found, storage_not_found, constant_not_found,
}

pub record PalletMetadata : Type 0 where
  pub index : ℕ
  pub name : String
  pub calls : HashMap String ℕ
  pub storage : HashMap String StorageEntryMetadata
  pub constants : HashMap String PalletConstantMetadata

pub record CallMetadata : Type 0 where
  pub pallet : String
  pub call : String
  pub variant : Variant

pub record EventMetadata : Type 0 where
  pub pallet : String
  pub event : String
  pub variant : Variant

pub record ErrorMetadata : Type 0 where
  pub pallet : String
  pub error : String
  pub variant : Variant

-- `ErrorMetadata::description`
abbrev pub description : ErrorMetadata → List String
description e = e.variant.docs

pub record Metadata : Type 0 where
  pub metadata : RuntimeMetadataV14
  pub pallets : HashMap String PalletMetadata
  pub calls : HashMap (ℕ × ℕ) CallMetadata
  pub events : HashMap (ℕ × ℕ) EventMetadata
  pub errors : HashMap (ℕ × ℕ) ErrorMetadata

-- `Metadata::pallet`
unfoldable pub pallet : Metadata → String → Result MetadataError PalletMetadata
pallet m name = ok_or (pallet_not_found name) (get name m.pallets)

-- `Metadata::call`
unfoldable pub call : Metadata → ℕ → ℕ → Result MetadataError CallMetadata
call m pallet_index call_index =
    ok_or (callable_not_found pallet_index call_index) (get (pallet_index, call_index) m.calls)

-- `Metadata::event`
unfoldable pub event : Metadata → ℕ → ℕ → Result MetadataError EventMetadata
event m pallet_index event_index =
    ok_or (event_not_found pallet_index event_index) (get (pallet_index, event_index) m.events)

-- `Metadata::error`
unfoldable pub error : Metadata → ℕ → ℕ → Result MetadataError ErrorMetadata
error m pallet_index error_index =
    ok_or (error_not_found pallet_index error_index) (get (pallet_index, error_index) m.errors)

-- The values whose key begins with the pallet's index.
unfoldable pub values_of {ℓ} : {V : Type ℓ} → ℕ → HashMap (ℕ × ℕ) V → List V
values_of pallet_index [] = []
values_of pallet_index (((p, _), v) ∷ m) =
    let rest = values_of pallet_index m in if p == pallet_index then v ∷ rest else rest

-- `Metadata::events`
unfoldable pub events : Metadata → ℕ → List EventMetadata
events m pallet_index = values_of pallet_index m.events

-- `Metadata::errors`
unfoldable pub errors : Metadata → ℕ → List ErrorMetadata
errors m pallet_index = values_of pallet_index m.errors

-- `Metadata::resolve_type`
abbrev pub resolve_type : Metadata → ℕ → Option RegistryType
resolve_type m id = m.metadata.types id

-- `PalletMetadata::encode_call`; the result is an `Encoded`.
unfoldable pub encode_call {ℓ} :
    {C : Type ℓ} → Codec C → PalletMetadata → String → C → Result MetadataError Bytes
encode_call c p call_name args = do
  fn_index ← ok_or (call_not_found call_name) (get call_name p.calls)
  ok ((p.index ∷ fn_index ∷ []) ++ c.encode args)

-- `PalletMetadata::storage`
unfoldable pub storage : PalletMetadata → String → Result MetadataError StorageEntryMetadata
storage p key = ok_or (storage_not_found key) (get key p.storage)

-- `PalletMetadata::constant`
unfoldable pub constant : PalletMetadata → String → Result MetadataError PalletConstantMetadata
constant p key = ok_or (constant_not_found key) (get key p.constants)
